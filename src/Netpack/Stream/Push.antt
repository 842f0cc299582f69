-- ===== src/Netpack/Stream/Push.antt =====
-- `push_more` on a piece of the stream that starts with a frame.
use skynet_server.Common.{
  ℕ, zero, suc, ◌+◌, ◌<◌, ◌≡◌, ◌⊎◌, inl, inr, sym, ap, ◌∙◌, false, some, List, [], ◌∷◌, ◌++◌,
  length, arith, length-append,
}
use mathlib.Core.Path.{subst}
use skynet_server.Common.Bytes.{Bytes}
use skynet_server.Netpack.Types.{Queue, Junk, Run, done}
use skynet_server.Netpack.Frame.Wire.{header_reading}
use skynet_server.Netpack.Frame.Unmask.{payload}
use skynet_server.Netpack.Queue.{push_data}
use skynet_server.Netpack.Frame.{Reading}
use skynet_server.Netpack.Push.{
  at_most_minus_two, find_header, if_any, save_body, push_round, push_loop, push_more,
}
use skynet_server.Netpack.Stream.{Sent, AllSent, header, stream, Partly, in_header, in_body}
use skynet_server.Netpack.Stream.Find.{
  at_most_minus_two-Skips, find_header-frame, find_header-waits,
}
use skynet_server.Netpack.Stream.Save.{Consumed, Free, save_header-Consumed, save_body-Consumed}
use skynet_server.Netpack.Stream.Pushed.{
  stream-split, Bytes-cases, if_any-more, Pushed, push_data-Pushed, push_round-whole,
  push_round-part, Pushed-Consumed, Free-Consumed,
}

module _ (J : Junk) where
  push_loop-find :
      (f fd : ℕ) (q : Queue) (buffer : Bytes) (h : Reading × Bytes)
      → find_header false at_most_minus_two buffer ≡ h
      → push_loop J (suc f) false (some q) fd buffer
        ≡ push_round J
            (λ q' b. push_loop J f false (some q') fd b)
            false
            (some q)
            fd
            h.0.result
            h.0
            h.1
  unfolding push_loop
  push_loop-find f fd q buffer h e =
      ap
        (λ (g : Reading × Bytes).
          push_round J (λ q' b. push_loop J f false (some q') fd b) false (some q) fd g.0.result g.0
            g.1)
        e

  -- What `push_loop` must give.
  abbrev Pushes : (f fd : ℕ) → Queue → List Sent → Bytes → Bytes → Type 0
  Pushes f fd q ss tail buffer =
      (r : Queue) × (push_loop J f false (some q) fd buffer ≡ done r) × Consumed J fd q ss tail r

  push_loop-tail :
      (f fd : ℕ) (q : Queue) (tail : Bytes)
      → Partly tail
      → Free J fd q
      → Pushes (suc f) fd q [] tail tail
  unfolding push_loop push_round
  push_loop-tail f fd q tail (in_header s r rest i e) free =
      let saved = save_header-Consumed J fd q s tail r rest free i e in
      let found = find_header-waits at_most_minus_two s tail r rest at_most_minus_two-Skips i e in
      (saved.0, rw (found.0, found.1) saved.1, saved.2)
  push_loop-tail f fd q tail (in_body s part r rest i t e) free =
      subst (λ tl. Pushes (suc f) fd q [] tl tl) (sym t)
        (
          save_body J (some q) fd (header_reading s.mask (length s.body) (length (header s)))
              (length s.body) part,
          push_loop-find f fd q (header s ++ part)
                (header_reading s.mask (length s.body) (length (header s)), header s ++ part)
                (find_header-frame at_most_minus_two s part at_most_minus_two-Skips i)
              ∙ push_round-part J (λ q' b. push_loop J f false (some q') fd b) fd q (header s)
                  s.mask (length s.body) part
                  (omega (arith, ap length e, length-append part (r ∷ rest))),
          save_body-Consumed J fd q s part r rest free i e,
        )

  push_loop-stream :
      (f fd : ℕ) (q : Queue) (ss : List Sent) (tail : Bytes)
      → AllSent ss
      → (tail ≡ []) ⊎ Partly tail
      → Free J fd q
      → 0 < length (stream ss ++ tail)
      → length (stream ss ++ tail) < f
      → Pushes f fd q ss tail (stream ss ++ tail)
  push_loop-stream zero fd q ss tail all t free some_bytes fuel = absurd (omega arith)
  push_loop-stream (suc f) fd q [] tail all (inl e) free some_bytes fuel =
      absurd (omega (arith, ap length e))
  push_loop-stream (suc f) fd q [] tail all (inr p) free some_bytes fuel =
      push_loop-tail f fd q tail p free
  push_loop-stream (suc f) fd q (s ∷ ss) tail all t free some_bytes fuel =
      subst (Pushes (suc f) fd q (s ∷ ss) tail) (sym (stream-split s ss tail))
        (elim (Bytes-cases (stream ss ++ tail)) [
          | inl e ↦ (
            q1,
            first_round ∙ ap (λ rest. if_any rest (next q1) (done q1)) e,
            Pushed-Consumed J fd q q1 q1 s ss tail pushed
                (Free-Consumed J fd q1 ss tail pushed.still_free e),
          )
          | inr more ↦
              let later =
                push_loop-stream f fd q1 ss tail all.1 t pushed.still_free more
                  (omega (arith, fuel, lengths)) in
              (
                later.0,
                first_round ∙ if_any-more (stream ss ++ tail) (next q1) (done q1) more ∙ later.1,
                Pushed-Consumed J fd q q1 later.0 s ss tail pushed later.2,
              )
        ])
    where
      q1 : Queue
      q1 = push_data J.cell (some q) fd (payload s.mask s.body)

      next : Queue → Bytes → Run Queue
      next q' b = push_loop J f false (some q') fd b

      pushed : Pushed J fd q s q1
      pushed = push_data-Pushed J fd q s free

      first_round :
          push_loop J (suc f) false (some q) fd (header s ++ (s.body ++ (stream ss ++ tail)))
          ≡ if_any (stream ss ++ tail) (next q1) (done q1)
      first_round =
          push_loop-find f fd q (header s ++ (s.body ++ (stream ss ++ tail)))
            (
              header_reading s.mask (length s.body) (length (header s)),
              header s ++ (s.body ++ (stream ss ++ tail)),
            )
            (find_header-frame at_most_minus_two s (s.body ++ (stream ss ++ tail))
              at_most_minus_two-Skips all.0)
          ∙ push_round-whole J next fd q (header s) s.mask s.body (stream ss ++ tail)

      lengths :
          length (stream (s ∷ ss) ++ tail)
          ≡ length (header s) + (length s.body + length (stream ss ++ tail))
      lengths =
          ap length (stream-split s ss tail)
          ∙ length-append (header s) (s.body ++ (stream ss ++ tail))
          ∙ ap (λ n. length (header s) + n) (length-append s.body (stream ss ++ tail))

  -- For a valid queue in which the connection has nothing in the table, and bytes, not none, that are
  -- whole frames (final frames of data of at most 10240 bytes, masked or not) and then nothing or a part
  -- of one: `push_more` outside a handshake ends, the payloads of the frames wait in order behind what
  -- waited, the part is kept for the connection, and what is kept of other connections stays.
  pub push_more-Consumed :
      (fd : ℕ) (q : Queue) (ss : List Sent) (tail : Bytes)
      → AllSent ss
      → (tail ≡ []) ⊎ Partly tail
      → Free J fd q
      → 0 < length (stream ss ++ tail)
      → (r : Queue) × (push_more J false (some q) fd (stream ss ++ tail) ≡ done r)
        × Consumed J fd q ss tail r
  unfolding push_more
  push_more-Consumed fd q ss tail all t free some_bytes =
      push_loop-stream (length (stream ss ++ tail) + 1) fd q ss tail all t free some_bytes
        (omega arith)
