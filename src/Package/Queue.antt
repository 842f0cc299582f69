-- ===== src/Package/Queue.antt =====
-- `struct queue` of service_package.c: a ring of `cap` cells that doubles when it is full.
-- The element size `sz` is the type of the cells. A cell that `malloc` returned and nothing wrote
-- holds `junk`, whatever that is.
pub mod Grow
pub mod Refine
use skynet_server.Common.{
  ℕ, zero, suc, ◌+◌, ◌-◌, ◌*◌, Bool, Option, none, some, List, get_or, set, replicate, ltb, leb,
  ◌==◌, if◌then◌else◌,
}

pub record Queue (A : Type 0) : Type 0 where
  pub cap : ℕ
  pub head : ℕ
  pub tail : ℕ
  pub buffer : List A

unfoldable pub queue_empty : {A : Type 0} → Queue A → Bool
queue_empty q = q.head == q.tail

unfoldable pub queue_size : {A : Type 0} → Queue A → ℕ
queue_size q = if ltb q.tail q.head then q.tail + q.cap - q.head else q.tail - q.head

module _ {A : Type 0} (junk : A) where
  unfoldable pub queue_init : Queue A
  queue_init = record { cap = 4; head = 0; tail = 0; buffer = replicate 4 junk }

  -- `none` is the return value 1: there is nothing to pop.
  unfoldable pub queue_pop : Queue A → Option (A × Queue A)
  queue_pop q =
      if q.head == q.tail
      then none
      else some (
        get_or q.buffer q.head junk,
        record q { head = if leb q.cap (q.head + 1) then 0 else q.head + 1 },
      )

  -- The copying loop, with `n` cells left: `tmp[i] = buffer[head]`.
  unfoldable pub copy_ring : (n i head cap : ℕ) → List A → List A → List A
  copy_ring zero i head cap buffer tmp = tmp
  copy_ring (suc n) i head cap buffer tmp =
      copy_ring n (i + 1) (if leb cap (head + 1) then 0 else head + 1) cap buffer
        (set tmp i (get_or buffer head junk))

  -- The full queue: the ring is copied to the front of a buffer twice as large, and the value goes
  -- to the cell that was its slot.
  unfoldable pub queue_grow : Queue A → A → Queue A
  unfolding copy_ring
  queue_grow q value = record {
    cap = q.cap * 2;
    head = 0;
    tail = q.cap;
    buffer =
        set (copy_ring q.cap 0 q.head q.cap q.buffer (replicate (q.cap * 2) junk)) (q.cap - 1)
          value;
  }

  unfoldable pub queue_push : Queue A → A → Queue A
  unfolding queue_grow
  queue_push q value =
      let tail : ℕ = if leb q.cap (q.tail + 1) then 0 else q.tail + 1 in
      if q.head == tail
      then queue_grow q value
      else record q { tail = tail; buffer = set q.buffer q.tail value }
