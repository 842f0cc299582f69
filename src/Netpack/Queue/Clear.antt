-- ===== src/Netpack/Queue/Clear.antt =====
-- `lclear`: which buffers are freed, and what is left.
use skynet_server.Common.{
  ℕ, zero, suc, ◌+◌, ◌-◌, ◌%◌, ◌<◌, ◌≡◌, refl, sym, ap, ◌∙◌, inl, inr, none, some, List, [], ◌∷◌,
  ◌++◌, append_assoc, arith, length, length-append, get_or, ltb, leb, if◌then◌else◌, ◌==◌,
  Bool-cases,
}
use mathlib.Core.Path.{subst}
use native.Mathlib.Nat.{mod-eq_of_lt, mod-lt, mod-add-mod, mod_self}
use skynet_server.Common.Ring.{advance, distance, window}
use skynet_server.Netpack.Types.{Netpack, Uncomplete, Queue}
use skynet_server.Netpack.Queue.{hash_size, no_chains, clear_list, clear_hash, clear_ring, lclear}
use skynet_server.Netpack.Queue.Refine.{IsValid, contents}
use skynet_server.Netpack.Hash.{hash_fd}
use skynet_server.Netpack.Hash.Lookup.{first_of, waiting}

-- The number of nodes in `n` chains from chain `i` on.
abbrev pub node_count : (n i : ℕ) → (ℕ → List Uncomplete) → ℕ
node_count zero i hash = 0
node_count (suc n) i hash = length (hash i) + node_count n (i + 1) hash

-- Among the frames is this one.
abbrev pub Among : Netpack → List Netpack → Type 0
Among p frames = (before : List Netpack) × (after : List Netpack) × (frames ≡ before ++ (p ∷ after))

Among-append_right :
    (p : Netpack) (front frames : List Netpack) → Among p frames → Among p (front ++ frames)
Among-append_right p front frames (before, after, e) =
    (front ++ before, after, ap (λ t. front ++ t) e ∙ sym (append_assoc front before (p ∷ after)))

Among-append_left :
    (p : Netpack) (frames behind : List Netpack) → Among p frames → Among p (frames ++ behind)
Among-append_left p frames behind (before, after, e) =
    (before, after ++ behind, ap (λ t. t ++ behind) e ∙ append_assoc before (p ∷ after) behind)

clear_list-Among :
    (fd : ℕ) (chain : List Uncomplete) (uc : Uncomplete)
    → first_of fd chain ≡ some uc
    → Among uc.pack (clear_list chain)
unfolding clear_list
clear_list-Among fd [] uc e = absurd (cc)
clear_list-Among fd (x ∷ chain) uc e = elim (Bool-cases (x.pack.id == fd)) [
  | inl here ↦
      let same : x ≡ uc = ground (arith, here, e) in
      ([], clear_list chain, ap (λ (y : Uncomplete). y.pack ∷ clear_list chain) same)
  | inr elsewhere ↦
      let later : first_of fd chain ≡ some uc = ground (arith, elsewhere, e) in
      Among-append_right uc.pack (x.pack ∷ []) (clear_list chain)
        (clear_list-Among fd chain uc later)
]

length-clear_list : (chain : List Uncomplete) → length (clear_list chain) ≡ length chain
unfolding clear_list
length-clear_list [] = refl
length-clear_list (uc ∷ chain) = ap suc (length-clear_list chain)

length-clear_hash :
    (n i : ℕ) (hash : ℕ → List Uncomplete) → length (clear_hash n i hash) ≡ node_count n i hash
unfolding clear_hash
length-clear_hash zero i hash = refl
length-clear_hash (suc n) i hash = omega (
  arith,
  length-append (clear_list (hash i)) (clear_hash n (i + 1) hash),
  length-clear_list (hash i),
  length-clear_hash n (i + 1) hash,
)

-- Each chain is emptied.
clear_hash-Among :
    (p : Netpack) (n i k : ℕ) (hash : ℕ → List Uncomplete)
    → k < n
    → Among p (clear_list (hash (i + k)))
    → Among p (clear_hash n i hash)
unfolding clear_hash
clear_hash-Among p zero i k hash h a = absurd (omega arith)
clear_hash-Among p (suc n) i zero hash h a =
    Among-append_left p (clear_list (hash i)) (clear_hash n (i + 1) hash)
      (subst (λ (j : ℕ). Among p (clear_list (hash j))) {x = i + 0} {y = i} (omega arith) a)
clear_hash-Among p (suc n) i (suc k) hash h a =
    Among-append_right p (clear_list (hash i)) (clear_hash n (i + 1) hash) (
      clear_hash-Among p n (i + 1) k hash (omega arith) (
        subst (λ (j : ℕ). Among p (clear_list (hash j))) {x = i + suc k} {y = i + 1 + k}
          (omega arith) a))

mod-advance_round : (r cap : ℕ) → r < cap → (r + 1) % cap ≡ advance cap r
mod-advance_round r cap h = elim (Bool-cases (leb cap (r + 1))) [
  | inl last ↦
      let full : r + 1 ≡ cap = ground (arith, last) in
      ap (λ (m : ℕ). m % cap) full ∙ mod_self cap ∙ rw last refl
  | inr inside ↦
      let less : r + 1 < cap = ground (arith, inside) in mod-eq_of_lt less ∙ rw inside refl
]

mod-advance : (i cap : ℕ) → 0 < cap → (i + 1) % cap ≡ advance cap (i % cap)
mod-advance i cap h = sym (mod-add-mod i cap 1) ∙ mod-advance_round (i % cap) cap (mod-lt i h)

hash_fd-lt : (fd : ℕ) → hash_fd fd < hash_size
unfolding hash_fd
hash_fd-lt fd = omega arith

module _ (junk : Netpack) where
  -- The loop over the ring goes round as the window does.
  clear_ring-window :
      (n i cap : ℕ) (buf : List Netpack)
      → 0 < cap
      → clear_ring junk n i cap buf ≡ window junk buf cap (i % cap) n
  unfolding clear_ring
  clear_ring-window zero i cap buf h = refl
  clear_ring-window (suc n) i cap buf h =
      ap (λ t. get_or buf (i % cap) junk ∷ t)
        (clear_ring-window n (i + 1) cap buf h
          ∙ ap (λ (j : ℕ). window junk buf cap j n) (mod-advance i cap h))

  -- What clearing a queue must do; `kept` are the frames of the table.
  pub data Cleared (q : Queue) : Type 0 where
    cleared :
        (r : Queue) (kept : List Netpack)
        → lclear junk (some q) ≡ (some r, kept ++ contents junk q)
        → length kept ≡ node_count hash_size 0 q.hash
        → ((fd : ℕ) (uc : Uncomplete) → waiting q fd ≡ some uc → Among uc.pack kept)
        → IsValid r
        → contents junk r ≡ []
        → ((fd : ℕ) → waiting r fd ≡ none)
        → Cleared q

  -- On a valid queue `lclear` frees as many buffers as the table has nodes, among them that of what waits
  -- for each connection, and then the buffers of the frames that wait, in order, and leaves a valid queue
  -- in which no frame waits and nothing is kept of any connection.
  pub lclear-Cleared : (q : Queue) → IsValid q → Cleared q
  unfolding lclear
  lclear-Cleared q v =
      cleared (record q { head = 0; tail = 0; hash = no_chains }) (clear_hash hash_size 0 q.hash)
        (ap
          (λ frames. (
            some (record q { head = 0; tail = 0; hash = no_chains }),
            clear_hash hash_size 0 q.hash ++ frames,
          ))
          ring)
        (length-clear_hash hash_size 0 q.hash)
        (λ fd uc e. clear_hash-Among uc.pack hash_size 0 (hash_fd fd) q.hash (hash_fd-lt fd) (
          subst (λ (h : ℕ). Among uc.pack (clear_list (q.hash h))) {x = hash_fd fd}
            {y = 0 + hash_fd fd} (omega arith) (clear_list-Among fd (q.hash (hash_fd fd)) uc e)))
        (record {
          sized = v.sized;
          head_in = omega (arith, v.head_in);
          tail_in = omega (arith, v.head_in);
        })
        refl (λ fd. refl)
    where
      round : ℕ
      round = (if ltb q.tail q.head then q.tail + q.cap else q.tail) - q.head

      ring : clear_ring junk round q.head q.cap q.queue ≡ contents junk q
      ring =
          clear_ring-window round q.head q.cap q.queue (omega (arith, v.head_in))
          ∙ ap (λ (h : ℕ). window junk q.queue q.cap h round) (mod-eq_of_lt v.head_in)
          ∙ ap (window junk q.queue q.cap q.head) {y = distance q.cap q.head q.tail} (ground arith)
