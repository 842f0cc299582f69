-- ===== src/Netpack/Handshake/Search.antt =====
-- `websocket_strnpos` against the places where the needle occurs.
use skynet_server.Common.{
  ℕ, zero, suc, ◌+◌, ◌-◌, ◌<◌, ◌≡◌, refl, inl, inr, true, false, ◌&&◌, none, some, [], ◌∷◌, ◌++◌,
  arith, ap, sym, ◌∙◌, Bool-cases, ◌==◌, ==_iff, length, length-append, length-drop, drop, ltb,
  tests,
}
use mathlib.Core.Path.{ap₂, subst}
use skynet_server.Common.Bytes.{Bytes}
use skynet_server.Netpack.Handshake.{starts_with, search_from, websocket_strnpos}

-- The needle stands in the haystack behind its first `i` bytes.
abbrev pub Occurs : (needle haystack : Bytes) (i : ℕ) → Type 0
Occurs needle haystack i = (after : Bytes) × (drop i haystack ≡ needle ++ after)

starts_with-prefix :
    (needle haystack : Bytes) → starts_with haystack needle ≡ true → Occurs needle haystack 0
unfolding starts_with
starts_with-prefix [] haystack h = (haystack, refl)
starts_with-prefix (n ∷ needle) [] h = absurd cc
starts_with-prefix (n ∷ needle) (x ∷ haystack) h = elim (Bool-cases (x == n)) [
  | inl same ↦
      let rest : Occurs needle haystack 0 =
        starts_with-prefix needle haystack
          (subst (λ b. (b && starts_with haystack needle) ≡ true) same h) in
      (rest.0, ap₂ ◌∷◌ ((==_iff x n).0 same) rest.1)
  | inr differ ↦
      let wrong : false ≡ true = subst (λ b. (b && starts_with haystack needle) ≡ true) differ h in
      absurd cc
]

prefix-starts_with : (needle after : Bytes) → starts_with (needle ++ after) needle ≡ true
unfolding starts_with
prefix-starts_with [] after = refl
prefix-starts_with (n ∷ needle) after =
    rw ((==_iff n n).1 refl, prefix-starts_with needle after) refl

Occurs-starts_with :
    (needle haystack : Bytes) (i : ℕ)
    → Occurs needle haystack i
    → starts_with (drop i haystack) needle ≡ true
Occurs-starts_with needle haystack i (after, e) = rw e (prefix-starts_with needle after)

Occurs-length :
    (needle haystack : Bytes) (i : ℕ) (o : Occurs needle haystack i)
    → length haystack - i ≡ length needle + length o.0
Occurs-length needle haystack i (after, e) =
    sym (length-drop i haystack) ∙ ap length e ∙ length-append needle after

-- One more byte in front that does not start the needle.
not_before :
    (needle haystack : Bytes) (x n : ℕ)
    → starts_with (x ∷ haystack) needle ≡ false
    → ((j : ℕ) → j < n → ¬ Occurs needle haystack j)
    → (j : ℕ) → j < suc n
    → ¬ Occurs needle (x ∷ haystack) j
not_before needle haystack x n away before zero lt o =
    let here : starts_with (x ∷ haystack) needle ≡ true =
      Occurs-starts_with needle (x ∷ haystack) 0 o in
    absurd cc
not_before needle haystack x n away before (suc j) lt o = before j (omega arith) o

-- The two ways the loop ends.
data SearchView (rounds i : ℕ) (haystack needle : Bytes) : Type 0 where
  found :
      (k : ℕ)
      → search_from rounds i haystack needle ≡ some (i + k)
      → Occurs needle haystack k
      → ((j : ℕ) → j < k → ¬ Occurs needle haystack j)
      → SearchView rounds i haystack needle
  missing :
      search_from rounds i haystack needle ≡ none
      → ((j : ℕ) → j < rounds → ¬ Occurs needle haystack j)
      → SearchView rounds i haystack needle

search_from-View :
    (rounds i : ℕ) (haystack needle : Bytes)
    → 0 < length needle
    → SearchView rounds i haystack needle
unfolding search_from
search_from-View zero i haystack needle h = missing refl (λ j lt. absurd (omega arith))
search_from-View (suc rounds) i [] needle h =
    missing refl (λ j lt o. absurd (omega (arith, Occurs-length needle [] j o)))
search_from-View (suc rounds) i (x ∷ haystack) needle h =
    elim (Bool-cases (starts_with (x ∷ haystack) needle)) [
      | inl here ↦
          found 0 (rw here (ap some (omega arith))) (starts_with-prefix needle (x ∷ haystack) here)
            (λ j lt. absurd (omega arith))
      | inr elsewhere ↦ elim (search_from-View rounds (i + 1) haystack needle h) [
        | found k e o first ↦
            found (suc k) (rw (elsewhere, e) (ap some (omega arith))) o
              (not_before needle haystack x k elsewhere first)
        | missing e never ↦
            missing (rw (elsewhere, e) refl) (not_before needle haystack x rounds elsewhere never)
      ]
    ]

-- The two ways `websocket_strnpos` ends.
pub data View (haystack needle : Bytes) : Type 0 where
  at_first :
      (n : ℕ)
      → websocket_strnpos haystack needle ≡ some n
      → Occurs needle haystack n
      → ((j : ℕ) → j < n → ¬ Occurs needle haystack j)
      → View haystack needle
  nowhere :
      websocket_strnpos haystack needle ≡ none
      → ((j : ℕ) → ¬ Occurs needle haystack j)
      → View haystack needle

-- If the needle is not empty, `websocket_strnpos` gives the number of bytes in front of the first place
-- where the needle stands in the haystack, or nothing if it stands nowhere.
pub websocket_strnpos-View : (haystack needle : Bytes) → 0 < length needle → View haystack needle
unfolding websocket_strnpos
websocket_strnpos-View haystack needle h =
    elim (Bool-cases (ltb (length haystack) (length needle))) [
      | inl short ↦
          nowhere (rw short refl)
            (λ j o. absurd (omega (tests, short, Occurs-length needle haystack j o)))
      | inr long ↦
          elim (search_from-View (length haystack - length needle + 1) 0 haystack needle h) [
            | found k e o first ↦ at_first k (rw (long, e) (ap some (omega arith))) o first
            | missing e never ↦ nowhere (rw (long, e) refl) (λ j o.
                elim (Bool-cases (ltb j (length haystack - length needle + 1))) [
                  | inl inside ↦ never j (omega (tests, inside)) o
                  | inr outside ↦ absurd (ground (arith, Occurs-length needle haystack j o))
                ])
          ]
    ]
