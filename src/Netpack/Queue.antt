-- ===== src/Netpack/Queue.antt =====
-- The ring of frames in lua-websocketnetpack.c: `get_queue`, `push_data`, `expand_queue`, `lpop`,
-- `lclear`. `junk` is what a cell holds that nothing has written yet.
pub mod Expand
pub mod Refine
pub mod Clear
use skynet_server.Common.{
  ℕ, zero, suc, ◌+◌, ◌-◌, ◌%◌, Option, none, some, List, [], ◌∷◌, ◌++◌, get_or, set, length,
  replicate, ltb, leb, ◌==◌, if◌then◌else◌,
}
use skynet_server.Common.Bytes.{Bytes}
use skynet_server.Netpack.Types.{Netpack, Uncomplete, Queue}

-- QUEUESIZE and HASHSIZE
abbrev pub queue_size : ℕ
queue_size = 1024

abbrev pub hash_size : ℕ
hash_size = 4096

abbrev pub no_chains : ℕ → List Uncomplete
no_chains h = []

module _ (junk : Netpack) where
  -- `none` is the null pointer: there is no queue yet.
  unfoldable pub get_queue : Option Queue → Queue
  get_queue (some q) = q
  get_queue none = record {
    cap = queue_size;
    head = 0;
    tail = 0;
    hash = no_chains;
    queue = replicate queue_size junk;
  }

  -- The loop of `expand_queue`, with `n` cells left.
  unfoldable pub expand_loop : (n i head cap : ℕ) → List Netpack → List Netpack → List Netpack
  expand_loop zero i head cap old new = new
  expand_loop (suc n) i head cap old new =
      expand_loop n (i + 1) head cap old (set new i (get_or old ((head + i) % cap) junk))

  -- The frames and the chains move to a queue with `queue_size` more cells.
  unfoldable pub expand_queue : Queue → Queue
  unfolding expand_loop
  expand_queue q = record {
    cap = q.cap + queue_size;
    head = 0;
    tail = q.cap;
    hash = q.hash;
    queue = expand_loop q.cap 0 q.head q.cap q.queue (replicate (q.cap + queue_size) junk);
  }

  -- A clone holds the same bytes, so whether `buffer` is cloned makes no difference here.
  unfoldable pub push_data : Option Queue → (fd : ℕ) → Bytes → Queue
  unfolding get_queue expand_queue
  push_data state fd buffer =
      let q = get_queue state in
      let q' : Queue = record q {
        tail = if leb q.cap (q.tail + 1) then q.tail + 1 - q.cap else q.tail + 1;
        queue = set q.queue q.tail (record { id = fd; size = length buffer; buffer = buffer });
      } in
      if q'.head == q'.tail then expand_queue q' else q'

  -- The frame that is popped is returned as its three fields.
  unfoldable pub lpop : Option Queue → Option Queue × Option Netpack
  lpop none = (none, none)
  lpop (some q) = if q.head == q.tail then (some q, none) else (
    some (record q { head = if leb q.cap (q.head + 1) then 0 else q.head + 1 }),
    some (get_or q.queue q.head junk),
  )

-- `clear_list`: the frames whose buffers are freed, in the order of the list.
unfoldable pub clear_list : List Uncomplete → List Netpack
clear_list [] = []
clear_list (uc ∷ chain) = uc.pack ∷ clear_list chain

-- The loop over the table, from chain `i` on, `n` chains long.
unfoldable pub clear_hash : (n i : ℕ) → (ℕ → List Uncomplete) → List Netpack
unfolding clear_list
clear_hash zero i hash = []
clear_hash (suc n) i hash = clear_list (hash i) ++ clear_hash n (i + 1) hash

module _ (junk : Netpack) where
  -- The loop over the ring: `i` runs up to `tail`, `n` cells on.
  unfoldable pub clear_ring : (n i cap : ℕ) → List Netpack → List Netpack
  clear_ring zero i cap buf = []
  clear_ring (suc n) i cap buf = get_or buf (i % cap) junk ∷ clear_ring n (i + 1) cap buf

  -- The queue that is left, and the frames whose buffers are freed, in order.
  unfoldable pub lclear : Option Queue → Option Queue × List Netpack
  unfolding clear_hash clear_ring
  lclear none = (none, [])
  lclear (some q) =
      let tail : ℕ = if ltb q.tail q.head then q.tail + q.cap else q.tail in
      (
        some (record q { head = 0; tail = 0; hash = no_chains }),
        clear_hash hash_size 0 q.hash ++ clear_ring (tail - q.head) q.head q.cap q.queue,
      )
