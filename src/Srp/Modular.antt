-- ===== src/Srp/Modular.antt =====
-- Powers modulo a number.
use Prim.Native.Nat.{ℕ, zero, suc, ◌+◌, ◌*◌, ◌/◌, ◌%◌, ◌^◌}
use mathlib.Core.Path.{◌≡◌, sym, ap, ◌∙◌}
use native.Mathlib.Omega.{arith}
use native.Mathlib.Nat.{
  mul_comm, mul_assoc, add-mul, mul-one, pow-suc, add-mul-mod_self_left, mod-mod, mul-zero,
  add-zero, pow-zero,
}

mul-mod_left : (m k n : ℕ) → m % n * k % n ≡ m * k % n
mul-mod_left m k n =
    sym (add-mul-mod_self_left (m % n * k) n (m / n * k))
    ∙ ap (λ (t : ℕ). t % n) {x = m % n * k + n * (m / n * k)} {y = m * k}
        (ap (λ (t : ℕ). m % n * k + t) (sym (mul_assoc n (m / n) k))
          ∙ sym (add-mul (m % n) (n * (m / n)) k)
          ∙ ap (λ (t : ℕ). t * k) {y = m} (omega arith))

pub mul-mod : (m k n : ℕ) → m % n * (k % n) % n ≡ m * k % n
mul-mod m k n =
    mul-mod_left m (k % n) n
    ∙ ap (λ (t : ℕ). t % n) (mul_comm m (k % n))
    ∙ mul-mod_left k m n
    ∙ ap (λ (t : ℕ). t % n) (mul_comm k m)

pub pow-mod : (m e n : ℕ) → (m % n) ^ e % n ≡ m ^ e % n
pow-mod m zero n = simp pow-zero
pow-mod m (suc e) n =
    ap (λ (t : ℕ). t % n) (pow-suc (m % n) e)
    ∙ sym (mul-mod ((m % n) ^ e) (m % n) n)
    ∙ ap (λ (t : ℕ). t * (m % n % n) % n) (pow-mod m e n)
    ∙ ap (λ (t : ℕ). m ^ e % n * t % n) {y = m % n} (mod-mod m n)
    ∙ mul-mod (m ^ e) m n
    ∙ ap (λ (t : ℕ). t % n) (sym (pow-suc m e))

pub pow-add : (x a b : ℕ) → x ^ (a + b) ≡ x ^ a * x ^ b
pow-add x a zero = simp (add-zero, pow-zero, mul-one)
pow-add x a (suc b) =
    ap (λ (t : ℕ). x ^ t) {y = suc (a + b)} (omega arith)
    ∙ pow-suc x (a + b)
    ∙ ap (λ (t : ℕ). t * x) (pow-add x a b)
    ∙ mul_assoc (x ^ a) (x ^ b) x
    ∙ ap (λ (t : ℕ). x ^ a * t) (sym (pow-suc x b))

pub pow-mul : (x a b : ℕ) → x ^ (a * b) ≡ (x ^ a) ^ b
pow-mul x a zero = simp (mul-zero, pow-zero)
pow-mul x a (suc b) =
    ap (λ (t : ℕ). x ^ t) {y = a * b + a} (omega arith)
    ∙ pow-add x (a * b) a
    ∙ ap (λ (t : ℕ). t * x ^ a) (pow-mul x a b)
    ∙ sym (pow-suc (x ^ a) b)
