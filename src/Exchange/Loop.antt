-- ===== src/Exchange/Loop.antt =====
-- The loop over a header that comes byte by byte, in a handshake.
use mathlib.Core.Path.{subst}
use skynet_server.Common.{
  ◌≤◌, ◌<◌, ◌≡◌, refl, sym, ap, ◌∙◌, true, false, none, [], ◌∷◌, ◌++◌, append_assoc, arith, length,
  length-append, if◌then◌else◌,
}
use skynet_server.Common.Bytes.{Bytes}
use skynet_server.Common.Int.{ℤ, pos, negsuc}
use skynet_server.Netpack.Types.{Run, done, fault}
use skynet_server.Netpack.Frame.{Reading}
use skynet_server.Netpack.Handshake.{get_http_header}
use skynet_server.Netpack.Push.{header_array_size, find_header}
use skynet_server.Netpack.Filter.{header_round, header_loop}

-- No part of the text has an empty line.
abbrev pub Quiet : Bytes → Type 0
Quiet text =
    (part rest : Bytes) → part ++ rest ≡ text → 0 < length rest → get_http_header part ≡ negsuc 0

-- What the loop over the header finds in a text.
abbrev pub reading : Bytes → Reading
reading text = record { result = get_http_header text; head_length = 0; mask = none }

header_round-end :
    (next : Run (Reading × Bytes × Bytes)) (z : ℤ) (r : Reading) (header : Bytes)
    → header_round next z r header [] ≡ done (r, header, [])
unfolding header_round
header_round-end next (pos n) r header = refl
header_round-end next (negsuc n) r header = refl

pub header_loop-Quiet :
    (header piece : Bytes)
    → 0 < length piece
    → length (header ++ piece) ≤ header_array_size
    → Quiet (header ++ piece)
    → header_loop true header piece ≡ done (reading (header ++ piece), header ++ piece, [])
unfolding header_loop find_header
header_loop-Quiet header [] some_bytes fits quiet = absurd (omega arith)
header_loop-Quiet header (b ∷ []) some_bytes fits quiet =
    ap
      (λ c.
        if c
        then fault
        else header_round (header_loop true (header ++ (b ∷ [])) [])
            (get_http_header (header ++ (b ∷ []))) (reading (header ++ (b ∷ [])))
            (header ++ (b ∷ [])) [])
      {y = false} (ground (arith, fits, length-append header (b ∷ [])))
    ∙ header_round-end (header_loop true (header ++ (b ∷ [])) [])
        (get_http_header (header ++ (b ∷ []))) (reading (header ++ (b ∷ []))) (header ++ (b ∷ []))
header_loop-Quiet header (b ∷ c ∷ rest) some_bytes fits quiet =
    let split = append_assoc header (b ∷ []) (c ∷ rest) in
    let later =
      header_loop-Quiet (header ++ (b ∷ [])) (c ∷ rest) (omega arith)
        (omega (arith, fits, ap length split)) (subst Quiet (sym split) quiet) in
    ap
      (λ t.
        if t
        then fault
        else header_round (header_loop true (header ++ (b ∷ [])) (c ∷ rest))
            (get_http_header (header ++ (b ∷ []))) (reading (header ++ (b ∷ [])))
            (header ++ (b ∷ [])) (c ∷ rest))
      {y = false} (ground (arith, fits, length-append header (b ∷ c ∷ rest)))
    ∙ ap
        (λ z.
          header_round (header_loop true (header ++ (b ∷ [])) (c ∷ rest)) z
            (reading (header ++ (b ∷ []))) (header ++ (b ∷ [])) (c ∷ rest))
        (quiet (header ++ (b ∷ [])) (c ∷ rest) split (omega arith))
    ∙ unfold header_round in later ∙ ap (λ t. done (reading t, t, [])) split
