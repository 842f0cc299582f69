-- ===== src/Netpack/Hash.antt =====
-- The hash table of connections with a frame that is not complete, in lua-websocketnetpack.c.
pub mod Lookup
use skynet_server.Common.{
  ℕ, zero, suc, ◌+◌, ◌/◌, ◌%◌, ◌^◌, Bool, Option, none, some, List, [], ◌∷◌, ◌==◌, if◌then◌else◌,
}
use skynet_server.Common.Bytes.{Bytes}
use skynet_server.Common.Int.{ℤ, pos}
use skynet_server.Netpack.Types.{Netpack, Uncomplete, Queue}
use skynet_server.Netpack.Queue.{hash_size, get_queue}

-- For a descriptor that is not negative, `>>` is a division.
unfoldable pub hash_fd : ℕ → ℕ
hash_fd fd = (fd / 2 ^ 24 + fd / 2 ^ 12 + fd) % 2 ^ 32 % hash_size

-- The first node of the chain for the descriptor, and the chain without it.
unfoldable pub find_in_chain : ℕ → List Uncomplete → Option (Uncomplete × List Uncomplete)
find_in_chain fd [] = none
find_in_chain fd (uc ∷ chain) =
    if uc.pack.id == fd then some (uc, chain) else elim (find_in_chain fd chain) [
      | none ↦ none
      | some (found, rest) ↦ some (found, uc ∷ rest)
    ]

-- `hash[h] = chain`
abbrev pub set_chain : ℕ → List Uncomplete → Queue → Queue
set_chain h chain q = record q { hash = λ k. if k == h then chain else q.hash k }

unfoldable pub find_uncomplete : Option Queue → ℕ → Option (Uncomplete × Queue)
unfolding hash_fd find_in_chain
find_uncomplete none fd = none
find_uncomplete (some q) fd = elim (find_in_chain fd (q.hash (hash_fd fd))) [
  | none ↦ none
  | some (uc, rest) ↦ some (uc, set_chain (hash_fd fd) rest q)
]

-- `uc->next = q->hash[h]; q->hash[h] = uc`
unfoldable pub put_uncomplete : ℕ → Uncomplete → Queue → Queue
unfolding hash_fd
put_uncomplete fd uc q = set_chain (hash_fd fd) (uc ∷ q.hash (hash_fd fd)) q

-- The node that `save_uncomplete` links in, all zero but for the descriptor.
abbrev pub fresh_uncomplete : ℕ → Uncomplete
fresh_uncomplete fd = record {
  pack = record { id = fd; size = 0; buffer = [] };
  header = [];
  read = pos 0;
  mask = none;
  hasunmask_size = 0;
}

module _ (junk : Netpack) where
  -- `save_uncomplete`, with what its callers store in the node right after.
  unfoldable pub save_uncomplete : Option Queue → ℕ → (Uncomplete → Uncomplete) → Queue
  unfolding get_queue put_uncomplete
  save_uncomplete state fd fill =
      put_uncomplete fd (fill (fresh_uncomplete fd)) (get_queue junk state)
