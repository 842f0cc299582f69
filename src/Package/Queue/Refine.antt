-- ===== src/Package/Queue/Refine.antt =====
-- A valid queue behaves as the list of the elements that it holds, first in, first out.
use skynet_server.Common.{
  suc, ◌-◌, ◌*◌, ◌<◌, ◌≡◌, refl, inl, inr, true, false, none, some, List, [], ◌∷◌, ◌++◌, arith, ap,
  sym, ◌∙◌, length, get_or, set, replicate, length-set, length-replicate, Bool-cases, ◌==◌,
}
use skynet_server.Common.Ring.{advance, distance, window, length-window, window_of_lt, window-set}
use skynet_server.Package.Queue.{
  Queue, queue_empty, queue_size, queue_init, queue_pop, copy_ring, queue_grow, queue_push,
}
use skynet_server.Package.Queue.Grow.{length-copy_ring, window-copy_ring}

pub record IsValid {A : Type 0} (q : Queue A) : Type 0 where
  pub sized : length q.buffer ≡ q.cap
  pub head_in : q.head < q.cap
  pub tail_in : q.tail < q.cap

module _ {A : Type 0} (junk : A) where
  -- The elements that wait, oldest first.
  abbrev pub contents : Queue A → List A
  contents q = window junk q.buffer q.cap q.head (distance q.cap q.head q.tail)

  -- `queue_size` is the number of elements that wait.
  pub queue_size-length : (q : Queue A) → queue_size q ≡ length (contents q)
  unfolding queue_size
  queue_size-length q =
      sym (length-window junk q.buffer q.cap q.head (distance q.cap q.head q.tail))

  pub queue_init-IsValid : IsValid (queue_init junk) × (contents (queue_init junk) ≡ [])
  unfolding queue_init
  queue_init-IsValid = (record { sized = refl; head_in = omega arith; tail_in = omega arith }, refl)

  -- The two ways a queue can be found: nothing to pop, or a first element and the rest.
  pub data View (q : Queue A) : Type 0 where
    nothing : queue_empty q ≡ true → queue_pop junk q ≡ none → contents q ≡ [] → View q
    first :
        (x : A) (r : Queue A)
        → queue_empty q ≡ false
        → queue_pop junk q ≡ some (x, r)
        → contents q ≡ x ∷ contents r
        → IsValid r
        → View q

  -- On a valid queue either there is nothing to pop, and `queue_empty` says so, or `queue_pop` gives
  -- the first element that waits and a valid queue of the others.
  pub queue-View : (q : Queue A) → IsValid q → View q
  unfolding queue_pop queue_empty
  queue-View q v = elim (Bool-cases (q.head == q.tail)) [
    | inl same ↦ nothing same (rw same) (ground (arith, window_zero))
    | inr differ ↦
        first (get_or q.buffer q.head junk) (record q { head = advance q.cap q.head }) differ
          (rw differ)
          (window_of_lt junk q.buffer q.cap q.head (distance q.cap q.head q.tail) (ground arith)
            ∙ ap
                (λ n.
                  get_or q.buffer q.head junk ∷ window junk q.buffer q.cap (advance q.cap q.head) n)
                (ground arith))
          (ground arith)
  ]
    where
      window_zero : window junk q.buffer q.cap q.head 0 ≡ []
      window_zero = refl

  pub queue_grow_refines :
      (q : Queue A) (x : A)
      → IsValid q
      → q.head ≡ advance q.cap q.tail
      → IsValid (queue_grow junk q x) × (contents (queue_grow junk q x) ≡ contents q ++ (x ∷ []))
  unfolding queue_grow
  queue_grow_refines q x v full = (
    record {
      sized = omega (arith, length-set tmp (q.cap - 1) x, room);
      head_in = omega (arith, v.head_in);
      tail_in = omega (arith, v.head_in);
    },
    ap (window junk (set tmp (q.cap - 1) x) (q.cap * 2) 0) count
        ∙ window-set junk tmp (q.cap * 2) (q.cap - 1) 0 (q.cap - 1) x (omega (arith, room))
            (omega (arith, v.head_in)) (omega (arith, v.head_in)) (ground arith)
        ∙ ap (λ t. t ++ (x ∷ []))
            (window-copy_ring junk (q.cap - 1) q.cap 0 q.head q.cap (q.cap * 2) q.buffer blank
                (omega arith) (omega arith) (omega (arith, length-replicate (q.cap * 2) junk))
              ∙ ap (window junk q.buffer q.cap q.head) waiting),
  )
    where
      blank : List A
      blank = replicate (q.cap * 2) junk

      tmp : List A
      tmp = copy_ring junk q.cap 0 q.head q.cap q.buffer blank

      room : length tmp ≡ q.cap * 2
      room =
          length-copy_ring junk q.cap 0 q.head q.cap q.buffer blank
          ∙ length-replicate (q.cap * 2) junk

      count : distance (q.cap * 2) 0 q.cap ≡ suc (q.cap - 1)
      count = ground (arith, v.head_in)

      waiting : q.cap - 1 ≡ distance q.cap q.head q.tail
      waiting = ground (arith, full, v.tail_in)

  -- On a valid queue `queue_push` gives a valid queue that holds the old elements and then the new
  -- one, in order, also where the ring is full and doubles.
  pub queue_push_refines :
      (q : Queue A) (x : A)
      → IsValid q
      → IsValid (queue_push junk q x) × (contents (queue_push junk q x) ≡ contents q ++ (x ∷ []))
  unfolding queue_push
  queue_push_refines q x v = elim (Bool-cases (q.head == advance q.cap q.tail)) [
    | inl full ↦ rw full (queue_grow_refines q x v (ground arith))
    | inr room ↦ rw room (
      record {
        sized = omega (arith, length-set q.buffer q.tail x);
        head_in = v.head_in;
        tail_in = ground arith;
      },
      ap (window junk (set q.buffer q.tail x) q.cap q.head) (longer room)
          ∙ window-set junk q.buffer q.cap (distance q.cap q.head q.tail) q.head q.tail x
              (omega arith) v.head_in (ground arith) (ground arith),
    )
  ]
    where
      longer :
          (q.head == advance q.cap q.tail) ≡ false
          → distance q.cap q.head (advance q.cap q.tail) ≡ suc (distance q.cap q.head q.tail)
      longer room = ground (arith, v.head_in, v.tail_in)
