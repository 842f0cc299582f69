-- ===== src/Common/Bytes.antt =====
-- Memory as lists of bytes: what `memcpy` and `malloc` do to a buffer, the bytes of a literal and
-- the decimal digits that `printf` writes for `%d`.
use Prim.Native.Nat.{ℕ, zero, suc, ◌+◌, ◌/◌, ◌%◌, ◌≤◌}
use Prim.Native.Char.{code}
use Prim.Native.String.{String}
use mathlib.Core.Path.{◌≡◌, refl, ap}
use mathlib.Core.List.{List, [], ◌∷◌, ◌++◌, append_assoc}
use native.Mathlib.Omega.{arith}
use skynet_server.Common.Lists.{length, length-append, take, drop, length-take, length-drop}
use skynet_server.Common.Tests.{ltb, if◌then◌else◌}

abbrev pub Bytes : Type 0
Bytes = List ℕ

-- The bytes of a text literal.
abbrev pub codes : String → Bytes
codes String.[] = []
codes (String.◌∷◌ c s) = code c ∷ codes s

-- `memcpy(dst + off, src, n)` for a source of `n` bytes.
abbrev pub memcpy : Bytes → ℕ → Bytes → Bytes
memcpy dst off src = take off dst ++ (src ++ drop (off + length src) dst)

-- `%d` of a number that is not negative; `n + 1` rounds are more than it has digits.
abbrev pub decimal_digits : ℕ → ℕ → Bytes
decimal_digits zero n = []
decimal_digits (suc f) n =
    let higher = decimal_digits f (n / 10) in
    if ltb n 10 then (n + 48) ∷ [] else higher ++ ((n % 10 + 48) ∷ [])

abbrev pub decimal : ℕ → Bytes
decimal n = decimal_digits (n + 1) n

pub length-memcpy :
    (dst : Bytes) (off : ℕ) (src : Bytes)
    → off + length src ≤ length dst
    → length (memcpy dst off src) ≡ length dst
length-memcpy dst off src h = omega (
  arith,
  length-append (take off dst) (src ++ drop (off + length src) dst),
  length-append src (drop (off + length src) dst),
  length-take off dst,
  length-drop (off + length src) dst,
)

pub take-append {ℓ} : {A : Type ℓ} (xs ys : List A) (n : ℕ) → n ≡ length xs → take n (xs ++ ys) ≡ xs
take-append [] ys zero h = refl
take-append [] ys (suc n) h = absurd (omega arith)
take-append (x ∷ xs) ys zero h = absurd (omega arith)
take-append (x ∷ xs) ys (suc n) h = ap (λ t. x ∷ t) (take-append xs ys n (omega arith))

pub take-all {ℓ} : {A : Type ℓ} (xs : List A) (n : ℕ) → length xs ≤ n → take n xs ≡ xs
take-all [] zero h = refl
take-all [] (suc n) h = refl
take-all (x ∷ xs) zero h = absurd (omega arith)
take-all (x ∷ xs) (suc n) h = ap (λ t. x ∷ t) (take-all xs n (omega arith))

-- After the copy the bytes up to its end are the old ones before it, and then the source.
pub take-memcpy :
    (dst : Bytes) (off : ℕ) (src : Bytes) (n : ℕ)
    → off ≤ length dst
    → n ≡ off + length src
    → take n (memcpy dst off src) ≡ take off dst ++ src
take-memcpy dst off src n h e =
    rw (← append_assoc (take off dst) src (drop (off + length src) dst)) (
      take-append (take off dst ++ src) (drop (off + length src) dst) n
        (omega (arith, length-append (take off dst) src, length-take off dst)))

pub drop-append {ℓ} : {A : Type ℓ} (xs ys : List A) → drop (length xs) (xs ++ ys) ≡ ys
drop-append [] ys = refl
drop-append (x ∷ xs) ys = drop-append xs ys
