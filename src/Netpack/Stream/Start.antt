-- ===== src/Netpack/Stream/Start.antt =====
-- `filter_data` for a connection with nothing in the table.
use skynet_server.Common.{
  ℕ, ◌<◌, ◌≡◌, ◌⊎◌, inl, inr, refl, sym, ap, ◌∙◌, true, false, Option, some, List, [], ◌∷◌, ◌++◌,
  append-nil, length, arith, length-append, ltb, ◌==◌, lt→ltb,
}
use mathlib.Core.Path.{ap₂, subst}
use skynet_server.Common.Bytes.{Bytes, take-append, drop-append}
use skynet_server.Netpack.Types.{Queue, Junk, Answer, nothing, data_frame, Run, done}
use skynet_server.Netpack.Frame.{Reading}
use skynet_server.Netpack.Frame.Wire.{header_reading}
use skynet_server.Netpack.Frame.Unmask.{payload}
use skynet_server.Netpack.Queue.{push_data}
use skynet_server.Netpack.Push.{if_any, is_minus_two, find_header, save_body, push_frame, push_more}
use skynet_server.Netpack.Filter.{then_more, then_nothing, filter_round}
use skynet_server.Netpack.Stream.{Sent, AllSent, header, stream, Partly, in_header, in_body}
use skynet_server.Netpack.Stream.Find.{is_minus_two-Skips, find_header-frame, find_header-waits}
use skynet_server.Netpack.Stream.Save.{Free, save_header-Consumed, save_body-Consumed}
use skynet_server.Netpack.Stream.Pushed.{stream-split}
use skynet_server.Netpack.Stream.Answer.{Filters, Consumed-Filtered, finish_frame}

module _ (J : Junk) where
  -- A piece that starts with a frame, or a part of one.
  abbrev pub Round : (fd : ℕ) → Queue → Reading → Bytes → Run (Option Queue × Answer)
  Round fd q h buffer = filter_round J false (some q) fd h.result h buffer

  pub filter_round-whole :
      (fd : ℕ) (q : Queue) (front : Bytes) (mask : Option Bytes) (body rest : Bytes)
      → Round fd q (header_reading mask (length body) (length front)) (front ++ (body ++ rest))
        ≡ if_any rest
            (λ left.
              then_more J (
                push_more J false
                  (some (push_data J.cell (some q) fd (payload mask body)))
                  fd
                  left))
            (done (some q, data_frame fd (payload mask body) (length body)))
  unfolding filter_round push_frame
  filter_round-whole fd q front mask body [] =
      rw (drop-append front (body ++ []), append-nil body, enough, exact) refl
    where
      enough : ltb (length body) (length body) ≡ false
      enough = ground arith

      exact : (length body == length body) ≡ true
      exact = ground arith
  filter_round-whole fd q front mask body (x ∷ rest) =
      rw
        (
          drop-append front (body ++ (x ∷ rest)),
          enough,
          beyond,
          push_frame,
          take-append body (x ∷ rest) (length body) refl,
          drop-append body (x ∷ rest),
        )
        refl
    where
      enough : ltb (length (body ++ (x ∷ rest))) (length body) ≡ false
      enough = ground (arith, length-append body (x ∷ rest))

      beyond : (length (body ++ (x ∷ rest)) == length body) ≡ false
      beyond = ground (arith, length-append body (x ∷ rest))

  pub filter_round-part :
      (fd : ℕ) (q : Queue) (front : Bytes) (mask : Option Bytes) (len : ℕ) (part : Bytes)
      → length part < len
      → Round fd q (header_reading mask len (length front)) (front ++ part)
        ≡ done (
          some (save_body J (some q) fd (header_reading mask len (length front)) len part),
          nothing,
        )
  unfolding filter_round
  filter_round-part fd q front mask len part short =
      rw (drop-append front part, lt→ltb (length part) len short) refl

  abbrev pub Found : (fd : ℕ) → Queue → Reading × Bytes → Run (Option Queue × Answer)
  Found fd q h = Round fd q h.0 h.1

  -- A piece for a connection with nothing in the table.
  pub start :
      (fd : ℕ) (q : Queue) (ss : List Sent) (tail : Bytes)
      → AllSent ss
      → (tail ≡ []) ⊎ Partly tail
      → Free J fd q
      → 0 < length (stream ss ++ tail)
      → Filters J fd q ss tail (Found fd q (find_header false is_minus_two (stream ss ++ tail)))
  unfolding filter_round
  start fd q [] tail all (inl e) free some_bytes = absurd (omega (arith, ap length e))
  start fd q [] tail all (inr (in_header s r rest i e)) free some_bytes =
      let h = find_header false is_minus_two tail in
      let found_header = find_header-waits is_minus_two s tail r rest is_minus_two-Skips i e in
      let saved = save_header-Consumed J fd q s tail r rest free i e in
      (
        saved.0,
        nothing,
        ap₂ (λ z b. filter_round J false (some q) fd z h.0 b) found_header.0 found_header.1
            ∙ ap (then_nothing J) saved.1,
        Consumed-Filtered J fd q [] tail saved.0 nothing refl saved.2,
      )
  start fd q [] tail all (inr (in_body s part r rest i t e)) free some_bytes =
      subst (λ tl. Filters J fd q [] tl (Found fd q (find_header false is_minus_two tl))) (sym t)
        (
          save_body J (some q) fd (header_reading s.mask (length s.body) (length (header s)))
              (length s.body) part,
          nothing,
          ap (Found fd q) (find_header-frame is_minus_two s part is_minus_two-Skips i)
              ∙ filter_round-part fd q (header s) s.mask (length s.body) part
                  (omega (arith, ap length e, length-append part (r ∷ rest))),
          Consumed-Filtered J fd q [] (header s ++ part)
              (save_body J (some q) fd (header_reading s.mask (length s.body) (length (header s)))
                (length s.body) part)
              nothing refl (save_body-Consumed J fd q s part r rest free i e),
        )
  start fd q (s ∷ ss) tail all t free some_bytes =
      finish_frame J fd q s ss tail
        (Found fd q (find_header false is_minus_two (stream (s ∷ ss) ++ tail))) all.1 t free
        (ap (λ b. Found fd q (find_header false is_minus_two b)) (stream-split s ss tail)
          ∙ ap (Found fd q) (
              find_header-frame is_minus_two s (s.body ++ (stream ss ++ tail)) is_minus_two-Skips
                all.0)
          ∙ filter_round-whole fd q (header s) s.mask s.body (stream ss ++ tail))
