-- ===== src/Common/Ring.antt =====
-- A C array used as a ring: indices that go round at `cap`, the window of `n` cells from an index
-- on, and what writes and copies do to it. Both queues of the program are read through it.
use Prim.Native.Nat.{ℕ, zero, suc, ◌+◌, ◌-◌, ◌≤◌, ◌<◌}
use mathlib.Core.Path.{◌≡◌, refl, ap, ap₂}
use mathlib.Core.Logic.{◌≢◌}
use mathlib.Core.List.{List, [], ◌∷◌, ◌++◌}
use native.Mathlib.Omega.{arith}
use skynet_server.Common.Lists.{length, get_or, set}
use skynet_server.Common.Tests.{ltb, leb, if◌then◌else◌}

-- `if (++i >= cap) i = 0`
abbrev pub advance : ℕ → ℕ → ℕ
advance cap i = if leb cap (i + 1) then 0 else i + 1

-- The index `n` steps on from `h`, for `h < cap` and `n ≤ cap`.
abbrev pub offset : ℕ → ℕ → ℕ → ℕ
offset cap h n = if ltb (h + n) cap then h + n else h + n - cap

-- The number of cells from `head` up to `tail`.
abbrev pub distance : ℕ → ℕ → ℕ → ℕ
distance cap head tail = if ltb tail head then tail + cap - head else tail - head

pub advance-lt : (cap i : ℕ) → i < cap → advance cap i < cap
advance-lt cap i h = ground arith

module _ {ℓ} {A : Type ℓ} (junk : A) where
  abbrev pub window : List A → ℕ → ℕ → ℕ → List A
  window buf cap h zero = []
  window buf cap h (suc n) = get_or buf h junk ∷ window buf cap (advance cap h) n

  pub length-window : (buf : List A) (cap h n : ℕ) → length (window buf cap h n) ≡ n
  length-window buf cap h zero = refl
  length-window buf cap h (suc n) = ap suc (length-window buf cap (advance cap h) n)

  pub get_or-set_self :
      (xs : List A) (i : ℕ) (v : A) → i < length xs → get_or (set xs i v) i junk ≡ v
  get_or-set_self [] i v h = absurd (omega arith)
  get_or-set_self (x ∷ xs) zero v h = refl
  get_or-set_self (x ∷ xs) (suc i) v h = get_or-set_self xs i v (omega arith)

  pub get_or-set_ne :
      (xs : List A) (i j : ℕ) (v : A) → i ≢ j → get_or (set xs i v) j junk ≡ get_or xs j junk
  get_or-set_ne [] i j v h = refl
  get_or-set_ne (x ∷ xs) zero zero v h = absurd (h refl)
  get_or-set_ne (x ∷ xs) zero (suc j) v h = refl
  get_or-set_ne (x ∷ xs) (suc i) zero v h = refl
  get_or-set_ne (x ∷ xs) (suc i) (suc j) v h = get_or-set_ne xs i j v (λ e. h (ap suc e))

  -- The window of all that follows the first cell.
  pub window_of_lt :
      (buf : List A) (cap h n : ℕ)
      → 0 < n
      → window buf cap h n ≡ get_or buf h junk ∷ window buf cap (advance cap h) (n - 1)
  window_of_lt buf cap h zero p = absurd (omega arith)
  window_of_lt buf cap h (suc n) p =
      ap (λ k. get_or buf h junk ∷ window buf cap (advance cap h) k) (omega arith)

  -- A write just past a window extends it by that cell.
  pub window-set :
      (buf : List A) (cap n h i : ℕ) (x : A)
      → cap ≤ length buf
      → h < cap
      → n < cap
      → i ≡ offset cap h n
      → window (set buf i x) cap h (suc n) ≡ window buf cap h n ++ (x ∷ [])
  window-set buf cap zero h i x hs hh hn e =
      let same : i ≡ h = ground arith in rw (same, get_or-set_self buf h x (omega arith))
  window-set buf cap (suc n) h i x hs hh hn e = ap₂ ◌∷◌ (get_or-set_ne buf i h x (ground arith)) (
      window-set buf cap n (advance cap h) i x hs (advance-lt cap h hh) (omega arith)
        (ground arith))

  -- A window that does not reach the end of the array is a plain slice.
  pub window-advance :
      (buf : List A) (cap i n : ℕ)
      → i + suc n ≤ cap
      → window buf cap (advance cap i) n ≡ window buf cap (i + 1) n
  window-advance buf cap i zero h = refl
  window-advance buf cap i (suc n) h = let next : advance cap i ≡ i + 1 = ground arith in rw next
