-- ===== src/Netpack/Stream/Feed.antt =====
-- A connection read to its end: pieces of the stream of any length go to `filter_data`, and after each
-- the reader takes the frames that wait with `lpop` and the frame that the answer hands over.
use skynet_server.Common.{
  ℕ, zero, suc, ◌≤◌, ◌<◌, ◌≡◌, refl, sym, ap, ◌∙◌, false, Option, none, some, List, [], ◌∷◌, ◌++◌,
  map, append_assoc, append-nil, length, arith, length-append,
}
use mathlib.Core.List.{map-append}
use mathlib.Core.Path.{subst}
use skynet_server.Common.Bytes.{Bytes}
use skynet_server.Common.Ring.{distance, length-window}
use skynet_server.Netpack.Types.{
  Netpack, Uncomplete, Queue, Junk, Answer, Run, done, fault, out_of_fuel,
}
use skynet_server.Netpack.Queue.{lpop}
use skynet_server.Netpack.Queue.Refine.{IsValid, contents, empty, first, lpop-View}
use skynet_server.Netpack.Hash.{hash_fd}
use skynet_server.Netpack.Hash.Lookup.{waiting, first_of, Unique}
use skynet_server.Netpack.Filter.{filter_data}
use skynet_server.Netpack.Stream.{
  Sent, AllSent, header, stream, delivered, Partly, in_header, in_body,
}
use skynet_server.Netpack.Stream.Save.{At, between, partly}
use skynet_server.Netpack.Stream.Same.{header-SameFrame}
use skynet_server.Netpack.Stream.Answer.{handed}
use skynet_server.Netpack.Stream.Filter.{IsSound, filter_data_lem}
use skynet_server.Netpack.Stream.Cut.{stream-Cut}

abbrev pub Fed : Type 0
Fed = Run (Queue × List Netpack)

-- The frames of a run behind others.
abbrev pub put_before : List Netpack → Fed → Fed
put_before fs (done (q, gs)) = done (q, fs ++ gs)
put_before fs fault = fault
put_before fs out_of_fuel = out_of_fuel

-- A frame that `lpop` gives goes in front of those behind it.
abbrev popped :
    (next : Queue → Queue × List Netpack)
    → Queue
    → Option Queue × Option Netpack
    → Queue × List Netpack
popped next q (some r, some x) = let d = next r in (d.0, x ∷ d.1)
popped next q (some r, none) = (q, [])
popped next q (none, x) = (q, [])

abbrev pub AllNonempty : List Bytes → Type 0
AllNonempty [] = Unit
AllNonempty (b ∷ bs) = (0 < length b) × AllNonempty bs

abbrev pub joined : List Bytes → Bytes
joined [] = []
joined (b ∷ bs) = b ++ joined bs

-- A part of a frame is not a sequence of frames.
pub part_whole :
    (ss : List Sent) (tail : Bytes) → Partly tail → AllSent ss → tail ≡ stream ss → ss ≡ []
part_whole [] tail p all e = refl
part_whole (s ∷ ss) tail (in_header s0 r rest i f) all e =
    let same = header-SameFrame s0 s [] (((s.body ++ stream ss) ++ (r ∷ rest))) i all.0 (
      append-nil (header s0)
      ∙ f
      ∙ ap (λ t. t ++ (r ∷ rest)) (e ∙ append_assoc (header s) s.body (stream ss))
      ∙ append_assoc (header s) (s.body ++ stream ss) (r ∷ rest)) in
    absurd (omega (arith, ap length same.behind, length-append (s.body ++ stream ss) (r ∷ rest)))
part_whole (s ∷ ss) tail (in_body s0 part r rest i t f) all e =
    let same =
      header-SameFrame s0 s part (s.body ++ stream ss) i all.0
        (sym t ∙ e ∙ append_assoc (header s) s.body (stream ss)) in
    absurd (
      omega (
        arith,
        ap length same.behind,
        length-append s.body (stream ss),
        same.lengths,
        ap length f,
        length-append part (r ∷ rest),
      ))

pub stream-nothing : (ss : List Sent) → stream ss ≡ [] → ss ≡ []
stream-nothing [] e = refl
stream-nothing (s ∷ ss) e = absurd (omega (arith, ap length e))

module _ (J : Junk) where
  -- `lpop` until nothing is there, at most `n` times.
  abbrev pub drain : ℕ → Queue → Queue × List Netpack
  drain zero q = (q, [])
  drain (suc n) q = popped (drain n) q (lpop J.cell (some q))

  pub record Drained (q : Queue) (d : Queue × List Netpack) : Type 0 where
    pub valid : IsValid d.0
    pub none_left : contents J.cell d.0 ≡ []
    pub all_taken : d.1 ≡ contents J.cell q
    pub table : d.0.hash ≡ q.hash

  pub drain-Drained :
      (n : ℕ) (q : Queue) → IsValid q → length (contents J.cell q) ≤ n → Drained q (drain n q)
  drain-Drained zero q v h = record {
    valid = v;
    none_left = nothing_in (contents J.cell q) (omega (arith, h));
    all_taken = sym (nothing_in (contents J.cell q) (omega (arith, h)));
    table = refl;
  }
    where
      nothing_in : (xs : List Netpack) → length xs ≡ 0 → xs ≡ []
      nothing_in [] e = refl
      nothing_in (x ∷ xs) e = absurd (omega (arith, e))
  drain-Drained (suc n) q v h = elim (lpop-View J.cell q v) [
    | empty e f ↦ rw e (record { valid = v; none_left = f; all_taken = sym f; table = refl })
    | first x r e f w g ↦
        let later = drain-Drained n r w (omega (arith, h, ap length f)) in
        rw e (record {
          valid = later.valid;
          none_left = later.none_left;
          all_taken = ap (λ t. x ∷ t) later.all_taken ∙ sym f;
          table = later.table ∙ g;
        })
  ]

  pub waiting_few : (q : Queue) → IsValid q → length (contents J.cell q) ≤ q.cap
  waiting_few q v =
      let count = length-window J.cell q.queue q.cap q.head (distance q.cap q.head q.tail) in
      ground (arith, count, v.head_in, v.tail_in)

  -- What a piece gives, and then the others.
  abbrev pub feed_round : (next : Queue → Fed) → Run (Option Queue × Answer) → Fed
  feed_round next (done (some r, a)) =
      let d = drain r.cap r in put_before (d.1 ++ handed a) (next d.0)
  feed_round next (done (none, a)) = fault
  feed_round next fault = fault
  feed_round next out_of_fuel = out_of_fuel

  abbrev pub feed : ℕ → List Bytes → Queue → Fed
  feed fd [] q = done (q, [])
  feed fd (piece ∷ pieces) q = feed_round (feed fd pieces) (filter_data J (some q) fd piece false)

  -- For a connection of which `before` is kept in a sound queue in which no frame waits, and pieces of
  -- its stream, none empty, that make whole frames with what is kept (final frames of data of at most
  -- 10240 bytes, masked or not, and no opening handshake): a reader that calls `filter_data` with each
  -- piece and `lpop` after it gets exactly the payloads of the frames in their order, wherever the
  -- pieces are cut, and in the end no byte of the connection is kept.
  pub feed-frames :
      (fd : ℕ) (pieces : List Bytes) (q : Queue) (before : Bytes) (ss : List Sent)
      → IsSound J q
      → contents J.cell q ≡ []
      → At fd before (waiting q fd)
      → AllSent ss
      → AllNonempty pieces
      → before ++ joined pieces ≡ stream ss
      → (r : Queue) × (feed fd pieces q ≡ done (r, map (delivered fd) ss)) × At fd [] (waiting r fd)
  feed-frames fd [] q before ss sound quiet (between e w) all ne cut =
      let none_sent : ss ≡ [] = stream-nothing ss (sym cut ∙ append-nil before ∙ e) in
      (q, ap (λ ts. done (q, map (delivered fd) ts)) (sym none_sent), between refl w)
  feed-frames fd [] q before ss sound quiet (partly p uc s w) all ne cut =
      let none_sent : ss ≡ [] = part_whole ss before p all (sym (append-nil before) ∙ cut) in
      (
        q,
        ap (λ ts. done (q, map (delivered fd) ts)) (sym none_sent),
        subst (λ b. At fd b (waiting q fd)) (sym (append-nil before) ∙ cut ∙ ap stream none_sent)
            (partly p uc s w),
      )
  feed-frames fd (piece ∷ pieces) q before ss sound quiet at all ne cut =
      let c =
        stream-Cut ss (before ++ piece) (joined pieces) all
          (append_assoc before piece (joined pieces) ∙ cut) in
      let f =
        filter_data_lem J fd q before piece c.before c.tail sound at c.before_sent c.ends ne.0
          c.cut_front in
      let d = drain-Drained f.0.cap f.0 f.3.valid (waiting_few f.0 f.3.valid) in
      let later =
        feed-frames fd pieces (drain f.0.cap f.0).0 c.tail c.behind
          (record {
            valid = d.valid;
            filed =
                subst (λ (hash : ℕ → List Uncomplete). (h : ℕ) → Unique (hash h)) (sym d.table)
                  f.3.filed;
          })
          d.none_left
          (subst (λ (hash : ℕ → List Uncomplete). At fd c.tail (first_of fd (hash (hash_fd fd))))
            (sym d.table) f.3.at)
          c.behind_sent ne.1 c.cut_rest in
      (
        later.0,
        ap (feed_round (feed fd pieces)) f.2
            ∙ ap (put_before ((drain f.0.cap f.0).1 ++ handed f.1)) later.1
            ∙ ap (λ fs. done (later.0, fs))
                (ap (λ t. (t ++ handed f.1) ++ map (delivered fd) c.behind) d.all_taken
                  ∙ ap (λ t. t ++ map (delivered fd) c.behind)
                      (f.3.queued ∙ ap (λ t. t ++ map (delivered fd) c.before) quiet)
                  ∙ sym (map-append (delivered fd) c.before c.behind)
                  ∙ ap (map (delivered fd)) (sym c.frames)),
        later.2,
      )
