-- ===== src/Netpack/Queue/Refine.antt =====
-- The ring of frames against the list of the frames that wait.
use skynet_server.Common.{
  ℕ, suc, ◌%◌, ◌+◌, ◌-◌, ◌<◌, ◌≡◌, refl, inl, inr, none, some, List, [], ◌∷◌, ◌++◌, arith, ap, ◌∙◌,
  length, get_or, set, replicate, length-set, length-replicate, Bool-cases, leb, if◌then◌else◌,
  ◌==◌,
}
use skynet_server.Common.Bytes.{Bytes}
use skynet_server.Common.Ring.{advance, offset, distance, window, window_of_lt, window-set}
use skynet_server.Netpack.Types.{Netpack, Queue}
use skynet_server.Netpack.Queue.{queue_size, get_queue, expand_loop, expand_queue, push_data, lpop}
use skynet_server.Netpack.Queue.Expand.{expand_loop-copy_ring}
use native.Mathlib.Nat.{mod-eq_of_lt}
use skynet_server.Package.Queue.{copy_ring}
use skynet_server.Package.Queue.Grow.{length-copy_ring, window-copy_ring}

pub record IsValid (q : Queue) : Type 0 where
  pub sized : length q.queue ≡ q.cap
  pub head_in : q.head < q.cap
  pub tail_in : q.tail < q.cap

module _ (junk : Netpack) where
  -- The frames that wait, oldest first.
  abbrev pub contents : Queue → List Netpack
  contents q = window junk q.queue q.cap q.head (distance q.cap q.head q.tail)

  pub get_queue-IsValid : IsValid (get_queue junk none) × (contents (get_queue junk none) ≡ [])
  unfolding get_queue
  get_queue-IsValid = (
    record {
      sized = length-replicate queue_size junk;
      head_in = omega arith;
      tail_in = omega arith;
    },
    refl,
  )

  -- The ring with the cell at `tail` written, where that makes it full, is copied in order.
  expand_queue_refines :
      (q : Queue)
      → length q.queue ≡ q.cap
      → q.head < q.cap
      → IsValid (expand_queue junk q)
        × (contents (expand_queue junk q) ≡ window junk q.queue q.cap q.head q.cap)
  unfolding expand_queue
  expand_queue_refines q sized head_in = (
    record {
      sized =
          ap length same
          ∙ length-copy_ring junk q.cap 0 q.head q.cap q.queue blank
          ∙ length-replicate (q.cap + queue_size) junk;
      head_in = omega arith;
      tail_in = omega arith;
    },
    ap (λ buf. window junk buf (q.cap + queue_size) 0 (distance (q.cap + queue_size) 0 q.cap)) same
        ∙ ap
            (window junk (copy_ring junk q.cap 0 q.head q.cap q.queue blank) (q.cap + queue_size) 0)
            (ground arith)
        ∙ window-copy_ring junk q.cap q.cap 0 q.head q.cap (q.cap + queue_size) q.queue blank
            (omega arith) (omega arith) (omega (arith, length-replicate (q.cap + queue_size) junk)),
  )
    where
      blank : List Netpack
      blank = replicate (q.cap + queue_size) junk

      start : (q.head + 0) % q.cap ≡ q.head
      start = ap (λ k. k % q.cap) (omega arith) ∙ mod-eq_of_lt {n = q.head} {m = q.cap} head_in

      same :
          expand_loop junk q.cap 0 q.head q.cap q.queue blank
          ≡ copy_ring junk q.cap 0 q.head q.cap q.queue blank
      same =
          expand_loop-copy_ring junk q.cap 0 q.head q.cap q.queue blank (omega arith)
          ∙ ap (λ h. copy_ring junk q.cap 0 h q.cap q.queue blank) start

  -- A piece of data that is pushed waits behind the frames that waited, in a valid queue, also where
  -- the ring is full and its cells move to a larger one; the hash table stays.
  pub push_data_refines :
      (q : Queue) (fd : ℕ) (buffer : Bytes)
      → IsValid q
      → IsValid (push_data junk (some q) fd buffer)
        × (contents (push_data junk (some q) fd buffer)
            ≡ contents q ++ (record { id = fd; size = length buffer; buffer = buffer } ∷ []))
        × ((push_data junk (some q) fd buffer).hash ≡ q.hash)
  unfolding push_data get_queue
  push_data_refines q fd buffer v = rw next (elim (Bool-cases (q.head == advance q.cap q.tail)) [
    | inl full ↦ rw full (
      (expand_queue_refines pushed cells v.head_in).0,
      (expand_queue_refines pushed cells v.head_in).1
          ∙ ap (window junk written q.cap q.head) {y = suc (q.cap - 1)} (omega (arith, v.head_in))
          ∙ extended (q.cap - 1) (omega (arith, v.head_in)) (ground arith)
          ∙ ap (λ n. window junk q.queue q.cap q.head n ++ (x ∷ [])) (ground arith),
      refl,
    )
    | inr room ↦ rw room (
      record { sized = cells; head_in = v.head_in; tail_in = ground arith },
      ap (window junk written q.cap q.head) {y = suc (distance q.cap q.head q.tail)} (ground arith)
          ∙ extended (distance q.cap q.head q.tail) (ground arith) (ground arith),
      refl,
    )
  ])
    where
      x : Netpack
      x = record { id = fd; size = length buffer; buffer = buffer }

      next :
          (if leb q.cap (q.tail + 1) then q.tail + 1 - q.cap else q.tail + 1) ≡ advance q.cap q.tail
      next = ground (arith, v.tail_in)

      written : List Netpack
      written = set q.queue q.tail x

      pushed : Queue
      pushed = record q { tail = advance q.cap q.tail; queue = written }

      cells : length written ≡ q.cap
      cells = length-set q.queue q.tail x ∙ v.sized

      extended :
          (n : ℕ)
          → n < q.cap
          → q.tail ≡ offset q.cap q.head n
          → window junk written q.cap q.head (suc n)
            ≡ window junk q.queue q.cap q.head n ++ (x ∷ [])
      extended n h e =
          window-set junk q.queue q.cap n q.head q.tail x (omega (arith, v.sized)) v.head_in h e

  -- The two ways that `lpop` ends.
  pub data View (q : Queue) : Type 0 where
    empty : lpop junk (some q) ≡ (some q, none) → contents q ≡ [] → View q
    first :
        (x : Netpack) (r : Queue)
        → lpop junk (some q) ≡ (some r, some x)
        → contents q ≡ x ∷ contents r
        → IsValid r
        → r.hash ≡ q.hash
        → View q

  -- On a valid queue `lpop` gives nothing if no frame waits, and otherwise the first frame that waits
  -- and a valid queue of the others.
  pub lpop-View : (q : Queue) → IsValid q → View q
  unfolding lpop
  lpop-View q v = elim (Bool-cases (q.head == q.tail)) [
    | inl same ↦ empty (rw same refl) (ground (arith, window_zero))
    | inr differ ↦
        first (get_or q.queue q.head junk) (record q { head = advance q.cap q.head })
          (rw differ refl)
          (window_of_lt junk q.queue q.cap q.head (distance q.cap q.head q.tail) (ground arith)
            ∙ ap
                (λ n.
                  get_or q.queue q.head junk ∷ window junk q.queue q.cap (advance q.cap q.head) n)
                {y = distance q.cap (advance q.cap q.head) q.tail}
                (ground (arith, v.head_in, v.tail_in)))
          (record { sized = v.sized; head_in = ground (arith, v.head_in); tail_in = v.tail_in })
          refl
  ]
    where
      window_zero : window junk q.queue q.cap q.head 0 ≡ []
      window_zero = refl
