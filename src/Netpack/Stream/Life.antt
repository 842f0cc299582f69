-- ===== src/Netpack/Stream/Life.antt =====
-- Connections that open, send, close and fail in any order: messages of all types through `lfilter`,
-- against a reader that keeps only bytes.
use skynet_server.Common.{
  ℕ, ◌<◌, ◌≡◌, ◌≢◌, ◌⊎◌, refl, sym, ap, ◌∙◌, inl, inr, false, none, some, List, [], ◌∷◌, ◌++◌, map,
  arith, length, ◌==◌, ==_iff, if◌then◌else◌, Bool-cases,
}
use mathlib.Core.Path.{subst}
use skynet_server.Common.Bytes.{Bytes}
use skynet_server.Netpack.Types.{
  Netpack, Uncomplete, Queue, Junk, Answer, nothing, closed, opened, failed, warned, Message, done,
}
use skynet_server.Netpack.Queue.Refine.{IsValid, contents}
use skynet_server.Netpack.Hash.{hash_fd}
use skynet_server.Netpack.Hash.Lookup.{
  IsFiled, waiting, first_of, Unique, missing, found, find_uncomplete-View,
}
use skynet_server.Netpack.Filter.{filter_data, close_uncomplete, lfilter}
use skynet_server.Netpack.Stream.{Sent, AllSent, stream, delivered, Partly}
use skynet_server.Netpack.Stream.Save.{At, between}
use skynet_server.Netpack.Stream.Answer.{handed, Filters}
use skynet_server.Netpack.Stream.Filter.{IsSound, filter_data_lem}
use skynet_server.Netpack.Stream.Feed.{
  Fed, put_before, drain, drain-Drained, waiting_few, feed_round,
}
use skynet_server.Netpack.Stream.Reader.{
  data_message, keep, Ends, closes, fails, Passes, connects, accepts, warns, is_other, Reads,
  at_end, piece_read, ended, passed,
}

-- What `close_uncomplete` leaves.
record Closed (fd : ℕ) (q r : Queue) : Type 0 where
  gone : waiting r fd ≡ none
  others : (x : ℕ) → x ≢ fd → waiting r x ≡ waiting q x
  filed : IsFiled r
  same : r ≡ record q { hash = r.hash }

close_uncomplete-Closed :
    (q : Queue) (fd : ℕ)
    → IsFiled q
    → (r : Queue) × (close_uncomplete (some q) fd ≡ some r) × Closed fd q r
unfolding close_uncomplete
close_uncomplete-Closed q fd filed = elim (find_uncomplete-View q fd filed) [
  | missing e free ↦ (
    q,
    rw (e, close_uncomplete) refl,
    record { gone = free; others = λ x ne. refl; filed = filed; same = refl },
  )
  | found uc r e w i gone others filed' same ↦ (
    r,
    rw (e, close_uncomplete) refl,
    record { gone = gone; others = others; filed = filed'; same = same },
  )
]

module _ (J : Junk) where
  abbrev pub attend : List Message → Queue → Fed
  attend [] q = done (q, [])
  attend (m ∷ messages) q = feed_round J (attend messages) (lfilter J (some q) m false)

  -- A queue that holds just what the reader keeps, and no frame.
  pub record Keeps (kept : ℕ → Bytes) (q : Queue) : Type 0 where
    pub sound : IsSound J q
    pub quiet : contents J.cell q ≡ []
    pub at : (x : ℕ) → At x (kept x) (waiting q x)

  -- A message that leaves frames to hand over, and the queue behind the reader's calls of `lpop`.
  record Round (q : Queue) (m : Message) (kept : ℕ → Bytes) (frames : List Netpack) : Type 0 where
    r : Queue
    runs :
        (next : Queue → Fed)
        → feed_round J next (lfilter J (some q) m false) ≡ put_before frames (next r)
    keeps : Keeps kept r

  -- The table is that which `lfilter` left.
  round :
      (q : Queue) (m : Message) (kept : ℕ → Bytes) (frames : List Netpack) (q' : Queue) (a : Answer)
      → lfilter J (some q) m false ≡ done (some q', a)
      → IsSound J q'
      → contents J.cell q' ++ handed a ≡ frames
      → ((x : ℕ) → At x (kept x) (waiting q' x))
      → Round q m kept frames
  round q m kept frames q' a answers sound all at =
      let d = drain-Drained J q'.cap q' sound.valid (waiting_few J q' sound.valid) in
      record {
        r = (drain J q'.cap q').0;
        runs = λ next.
            ap (feed_round J next) answers
            ∙ ap (λ fs. put_before fs (next (drain J q'.cap q').0))
                (ap (λ t. t ++ handed a) d.all_taken ∙ all);
        keeps = record {
          sound = record {
            valid = d.valid;
            filed =
                subst (λ (hash : ℕ → List Uncomplete). (h : ℕ) → Unique (hash h)) (sym d.table)
                  sound.filed;
          };
          quiet = d.none_left;
          at = λ x.
              subst (At x (kept x))
                (ap (λ (hash : ℕ → List Uncomplete). first_of x (hash (hash_fd x))) (sym d.table))
                (at x);
        };
      }

  -- What is kept of all connections, by what is kept of one and of the others.
  kept_all :
      (fd : ℕ) (tail : Bytes) (kept : ℕ → Bytes) (q r : Queue)
      → ((x : ℕ) → At x (kept x) (waiting q x))
      → At fd tail (waiting r fd)
      → ((x : ℕ) → x ≢ fd → waiting r x ≡ waiting q x)
      → (x : ℕ) → At x (keep fd tail kept x) (waiting r x)
  kept_all fd tail kept q r at own others x = elim (Bool-cases (fd == x)) [
    | inl same ↦
        subst (λ b. At x (if b then tail else kept x) (waiting r x)) (sym same)
          (subst (λ y. At y tail (waiting r y)) ((==_iff fd x).0 same) own)
    | inr differ ↦
        subst (λ b. At x (if b then tail else kept x) (waiting r x)) (sym differ)
          (subst (At x (kept x)) (sym (others x (λ e. absurd (ground (arith, differ, e))))) (at x))
  ]

  piece_round :
      (q : Queue) (kept : ℕ → Bytes) (fd : ℕ) (piece : Bytes) (before : List Sent) (tail : Bytes)
      → Keeps kept q
      → 0 < length piece
      → AllSent before
      → (tail ≡ []) ⊎ Partly tail
      → kept fd ++ piece ≡ stream before ++ tail
      → Round q (data_message fd piece) (keep fd tail kept) (map (delivered fd) before)
  unfolding lfilter
  piece_round q kept fd piece before tail k some_bytes all ends cut =
      let f : Filters J fd q before tail (filter_data J (some q) fd piece false) =
        filter_data_lem J fd q (kept fd) piece before tail k.sound (k.at fd) all ends some_bytes
          cut in
      round q (data_message fd piece) (keep fd tail kept) (map (delivered fd) before) f.0 f.1 f.2
        (record { valid = f.3.valid; filed = f.3.filed })
        (f.3.queued ∙ ap (λ t. t ++ map (delivered fd) before) k.quiet)
        (kept_all fd tail kept q f.0 k.at f.3.at f.3.others)

  ended_round :
      (q : Queue) (kept : ℕ → Bytes) (m : Message)
      → Keeps kept q
      → Ends m
      → Round q m (keep m.id [] kept) []
  unfolding lfilter
  ended_round q kept m k ends =
      let c = close_uncomplete-Closed q m.id k.sound.filed in
      let sound : IsSound J c.0 = record {
        valid = subst IsValid (sym c.2.same) (record {
          sized = k.sound.valid.sized;
          head_in = k.sound.valid.head_in;
          tail_in = k.sound.valid.tail_in;
        });
        filed = c.2.filed;
      } in
      let quiet : contents J.cell c.0 ++ [] ≡ [] =
        ap (λ t. t ++ []) (ap (contents J.cell) c.2.same ∙ k.quiet) in
      let at = kept_all m.id [] kept q c.0 k.at (between refl c.2.gone) c.2.others in
      elim ends [
        | closes e ↦
            round q m (keep m.id [] kept) [] c.0 (closed m.id) (rw (e, c.1) refl) sound quiet at
        | fails e b ↦
            round q m (keep m.id [] kept) [] c.0 (failed m.id m.padding) (rw (e, b, c.1) refl) sound
              quiet at
      ]

  passed_round :
      (q : Queue) (kept : ℕ → Bytes) (m : Message) → Keeps kept q → Passes m → Round q m kept []
  unfolding lfilter
  passed_round q kept m k passes =
      let quiet : contents J.cell q ++ [] ≡ [] = ap (λ t. t ++ []) k.quiet in
      elim passes [
        | connects e ↦ round q m kept [] q nothing (rw e refl) k.sound quiet k.at
        | accepts e b ↦
            round q m kept [] q (opened m.ud m.padding) (rw (e, b) refl) k.sound quiet k.at
        | warns e ↦ round q m kept [] q (warned m.id m.ud) (rw e refl) k.sound quiet k.at
        | is_other e ↦ round q m kept [] q nothing (rw e refl) k.sound quiet k.at
      ]

  -- For messages of every type and of any connections in any order (the pieces not empty, the
  -- text of an accept or an error behind the message, no handshake, final frames of data of at most
  -- 10240 bytes, masked or not): a reader that hands each message to `lfilter` and calls `lpop` after it, from a queue that holds what is kept and no
  -- frame, gets exactly the frames of a reader that keeps the bytes of each connection behind its last
  -- whole frame and drops them when the connection ends, and the queue again holds what that reader
  -- keeps and no frame.
  pub lfilter-Reads :
      (kept : ℕ → Bytes) (messages : List Message) (frames : List Netpack) (last : ℕ → Bytes)
      (q : Queue)
      → Keeps kept q
      → Reads kept messages frames last
      → (r : Queue) × (attend messages q ≡ done (r, frames)) × Keeps last r
  lfilter-Reads _ _ _ _ q k (at_end kept) = (q, refl, k)
  lfilter-Reads _ _ _ _ q k
        (piece_read kept fd piece before tail messages frames last some_bytes all ends cut later) =
      let s = piece_round q kept fd piece before tail k some_bytes all ends cut in
      let rest = lfilter-Reads (keep fd tail kept) messages frames last s.r s.keeps later in
      (
        rest.0,
        s.runs (attend messages) ∙ ap (put_before (map (delivered fd) before)) rest.1,
        rest.2,
      )
  lfilter-Reads _ _ _ _ q k (ended kept m messages frames last ends later) =
      let s = ended_round q kept m k ends in
      let rest = lfilter-Reads (keep m.id [] kept) messages frames last s.r s.keeps later in
      (rest.0, s.runs (attend messages) ∙ ap (put_before []) rest.1, rest.2)
  lfilter-Reads _ _ _ _ q k (passed kept m messages frames last passes later) =
      let s = passed_round q kept m k passes in
      let rest = lfilter-Reads kept messages frames last s.r s.keeps later in
      (rest.0, s.runs (attend messages) ∙ ap (put_before []) rest.1, rest.2)
