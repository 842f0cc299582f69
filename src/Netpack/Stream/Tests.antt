-- ===== src/Netpack/Stream/Tests.antt =====
-- Two connections at once at a concrete input.
use skynet_server.Common.{
  ℕ, ◌≡◌, refl, inl, inr, false, none, List, [], ◌∷◌, arith, ◌==◌, if◌then◌else◌, Bool-cases,
}
use skynet_server.Common.Bytes.{Bytes}
use skynet_server.Netpack.Stream.Save.{between}
use skynet_server.Netpack.Stream.Interleave.{Sends, Serves, lfilter-Serves}
use skynet_server.Netpack.Samples.{
  memory, quiet, quiet-IsSound, masked, plain, masked-IsSent, plain-IsSent,
}
use skynet_server.Netpack.Types.{Queue, Message, close, accept, done}
use skynet_server.Netpack.Stream.{Sent, delivered, in_header}
use skynet_server.Netpack.Stream.Reader.{
  data_message, keep, closes, accepts, Reads, at_end, piece_read, ended, passed,
}
use skynet_server.Netpack.Stream.Life.{attend, Keeps, lfilter-Reads}

abbrev nothing_kept : ℕ → Bytes
nothing_kept x = []

nothing-Keeps : Keeps memory nothing_kept quiet
nothing-Keeps = record { sound = quiet-IsSound; quiet = refl; at = λ x. between refl refl }

-- Connection 7 sends the first in three pieces, connection 9 the other in two.
abbrev two_streams : List (ℕ × Bytes)
two_streams =
    (7, 129 ∷ [])
    ∷ (9, 130 ∷ 1 ∷ [])
    ∷ (7, 130 ∷ 1 ∷ 2 ∷ 3 ∷ 4 ∷ 73 ∷ [])
    ∷ (9, 65 ∷ [])
    ∷ (7, 107 ∷ [])
    ∷ []

abbrev frames_sent : ℕ → List Sent
frames_sent x = if 7 == x then masked ∷ [] else if 9 == x then plain ∷ [] else []

sent_each : (x : ℕ) → Sends x [] two_streams (frames_sent x)
sent_each x = elim (Bool-cases (7 == x)) [
  | inl seven ↦
      let not_nine : (9 == x) ≡ false = ground (arith, seven) in
      record { all = rw seven (masked-IsSent, tt); cut = rw (seven, not_nine) refl }
  | inr other ↦ elim (Bool-cases (9 == x)) [
    | inl nine ↦ record { all = rw (other, nine) (plain-IsSent, tt); cut = rw (other, nine) refl }
    | inr none_of_them ↦ record {
      all = rw (other, none_of_them) tt;
      cut = rw (other, none_of_them) refl;
    }
  ]
]

lfilter-Serves_example : Serves memory two_streams quiet frames_sent
lfilter-Serves_example =
    lfilter-Serves memory two_streams quiet nothing_kept frames_sent nothing-Keeps sent_each
      (omega arith, (omega arith, (omega arith, (omega arith, (omega arith, tt)))))

-- Connection 7 closes inside a frame, and its number comes again.
abbrev accepted : Message
accepted = record { type = accept; id = 1; ud = 7; buffer = none; padding = 65 ∷ [] }

abbrev closing : Message
closing = record { type = close; id = 7; ud = 0; buffer = none; padding = [] }

abbrev two_lives : List Message
two_lives =
    data_message 7 (129 ∷ [])
    ∷ data_message 9 (130 ∷ 1 ∷ 65 ∷ [])
    ∷ closing
    ∷ accepted
    ∷ data_message 7 (129 ∷ 130 ∷ 1 ∷ 2 ∷ 3 ∷ 4 ∷ 73 ∷ 107 ∷ [])
    ∷ []

abbrev kept_then : ℕ → Bytes
kept_then = keep 7 [] (keep 9 [] (keep 7 (129 ∷ []) nothing_kept))

two_lives-Reads :
    Reads nothing_kept two_lives (delivered 9 plain ∷ delivered 7 masked ∷ []) (keep 7 [] kept_then)
two_lives-Reads =
    piece_read nothing_kept 7 (129 ∷ []) [] (129 ∷ []) _ _ _ (omega arith) tt
      (inr (in_header masked 130 (1 ∷ 2 ∷ 3 ∷ 4 ∷ []) masked-IsSent refl)) refl
      (piece_read (keep 7 (129 ∷ []) nothing_kept) 9 (130 ∷ 1 ∷ 65 ∷ []) (plain ∷ []) [] _ _ _
        (omega arith) (plain-IsSent, tt) (inl refl) refl
        (ended (keep 9 [] (keep 7 (129 ∷ []) nothing_kept)) closing _ _ _ (closes refl) (
          passed kept_then accepted _ _ _ (accepts refl refl) (
            piece_read kept_then 7 (129 ∷ 130 ∷ 1 ∷ 2 ∷ 3 ∷ 4 ∷ 73 ∷ 107 ∷ []) (masked ∷ []) [] _ _
              _ (omega arith) (masked-IsSent, tt) (inl refl) refl (at_end (keep 7 [] kept_then))))))

lfilter-Reads_example :
    (r : Queue) × (attend memory two_lives quiet
      ≡ done (r, delivered 9 plain ∷ delivered 7 masked ∷ []))
    × Keeps memory (keep 7 [] kept_then) r
lfilter-Reads_example =
    lfilter-Reads memory nothing_kept two_lives (delivered 9 plain ∷ delivered 7 masked ∷ [])
      (keep 7 [] kept_then) quiet nothing-Keeps two_lives-Reads
