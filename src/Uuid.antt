-- ===== src/Uuid.antt =====
-- The numbers that server/lualib-src/lua-uuid.c hands out, one counter for the process.
mod Tests
use Prim.Native.Nat.{min, max}
use skynet_server.Common.{
  ℕ, zero, suc, ◌+◌, ◌-◌, ◌%◌, ◌^◌, ◌≤◌, ◌<◌, ◌≡◌, refl, ap, ◌∙◌, inl, inr, true, false, Option,
  none, some, List, [], ◌∷◌, arith, tests, ltb, leb, if◌then◌else◌, Bool-cases,
}

-- `luaopen_uuid_core` sets the counter.
abbrev pub luaopen_uuid_core : ℕ
luaopen_uuid_core = 0

-- The number for the caller, none when they are used up, and the counter, of 32 bits.
unfoldable pub lsid : ℕ → Option ℕ × ℕ
lsid sid = if leb 0xffff sid then (none, sid) else (some ((sid + 1) % 2 ^ 32), (sid + 1) % 2 ^ 32)

-- The results of calls, one behind the other.
unfoldable pub calls : ℕ → ℕ → List (Option ℕ)
unfolding lsid
calls zero sid = []
calls (suc n) sid = (lsid sid).0 ∷ calls n (lsid sid).1

-- The specification: the call with number `k` gets `k`, up to 0xffff.
abbrev pub sids : ℕ → ℕ → List (Option ℕ)
sids zero k = []
sids (suc n) k = (if leb k 0xffff then some k else none) ∷ sids n (k + 1)

lsid-some : (sid : ℕ) → sid < 0xffff → lsid sid ≡ (some (sid + 1), sid + 1)
unfolding lsid
lsid-some sid h =
    ap (λ b. if b then (none, sid) else (some ((sid + 1) % 2 ^ 32), (sid + 1) % 2 ^ 32)) below
    ∙ ap (λ (m : ℕ). (some m, m)) {y = sid + 1} (omega arith)
  where
    below : leb 0xffff sid ≡ false
    below = ground arith

lsid-none : (sid : ℕ) → 0xffff ≤ sid → lsid sid ≡ (none, sid)
unfolding lsid
lsid-none sid h =
    ap (λ b. if b then (none, sid) else (some ((sid + 1) % 2 ^ 32), (sid + 1) % 2 ^ 32)) {y = true}
      (ground arith)

-- Behind the last number.
calls-none : (n sid k : ℕ) → 0xffff ≤ sid → 0xffff < k → calls n sid ≡ sids n k
unfolding calls
calls-none zero sid k h past = refl
calls-none (suc n) sid k h past =
    ap (λ p. p.0 ∷ calls n p.1) (lsid-none sid h)
    ∙ ap (λ t. none ∷ t) (calls-none n sid (k + 1) h (omega arith))
    ∙ ap (λ b. (if b then some k else none) ∷ sids n (k + 1)) {x = false} (ground arith)

calls-some : (n sid : ℕ) → sid ≤ 0xffff → calls n sid ≡ sids n (sid + 1)
unfolding calls
calls-some zero sid h = refl
calls-some (suc n) sid h = elim (Bool-cases (ltb sid 0xffff)) [
  | inl below ↦
      ap (λ p. p.0 ∷ calls n p.1) (lsid-some sid (omega (tests, below)))
      ∙ ap (λ t. some (sid + 1) ∷ t) (calls-some n (sid + 1) (ground (arith, below)))
      ∙ ap (λ b. (if b then some (sid + 1) else none) ∷ sids n (sid + 1 + 1)) {x = true}
          (ground (arith, below))
  | inr above ↦ calls-none (suc n) sid (sid + 1) (ground (arith, above)) (ground (arith, above))
]

-- `uuid.split` of server/lualib/base/uuid.lua reads 15 bits of a number: how many results do not fit.
abbrev pub beyond_field : List (Option ℕ) → ℕ
beyond_field [] = 0
beyond_field (none ∷ results) = beyond_field results
beyond_field (some k ∷ results) =
    let more = beyond_field results in if ltb k (2 ^ 15) then more else more + 1

-- From the result `k` on.
beyond_field-sids : (n k : ℕ) → beyond_field (sids n k) ≡ min (k + n) (2 ^ 16) - max k (2 ^ 15)
beyond_field-sids zero k = omega arith
beyond_field-sids (suc n) k = elim (Bool-cases (leb k 0xffff)) [
  | inl given ↦ elim (Bool-cases (ltb k (2 ^ 15))) [
    | inl inside ↦
        ap (λ b. beyond_field ((if b then some k else none) ∷ sids n (k + 1))) given
        ∙ ap (λ b. let more = beyond_field (sids n (k + 1)) in if b then more else more + 1) inside
        ∙ omega (tests, inside, beyond_field-sids n (k + 1))
    | inr outside ↦
        let high : 2 ^ 15 ≤ k = ground (arith, outside) in
        ap (λ b. beyond_field ((if b then some k else none) ∷ sids n (k + 1))) given
        ∙ ap (λ b. let more = beyond_field (sids n (k + 1)) in if b then more else more + 1) outside
        ∙ omega (tests, given, high, beyond_field-sids n (k + 1))
  ]
  | inr used_up ↦
      let past : 0xffff < k = ground (arith, used_up) in
      ap (λ b. beyond_field ((if b then some k else none) ∷ sids n (k + 1))) used_up
      ∙ omega (arith, past, beyond_field-sids n (k + 1))
]

-- The calls after the module is opened get 1, 2 and so on up to 0xffff, each number once, and every
-- later call gets nothing. Of the numbers of `n` calls those from the call 0x8000 on do not fit the 15
-- bits that `uuid.split` reads.
pub lsid-sids :
    (n : ℕ)
    → (calls n luaopen_uuid_core ≡ sids n 1)
      × (beyond_field (calls n luaopen_uuid_core) ≡ min n 0xffff - 0x7fff)
lsid-sids n =
    let given = calls-some n luaopen_uuid_core (omega arith) in
    (given, ap beyond_field given ∙ beyond_field-sids n 1 ∙ omega arith)
