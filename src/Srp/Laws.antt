-- ===== src/Srp/Laws.antt =====
-- What the documentation of SRP-6a (RFC 5054) says of the routines, and the session key that both
-- sides compute.
use skynet_server.Common.{
  ℕ, ◌+◌, ◌-◌, ◌*◌, ◌%◌, ◌^◌, ◌<◌, ◌≤◌, ◌≡◌, sym, ap, ◌∙◌, some, arith, ltb, Bool-cases, inl, inr,
}
use native.Mathlib.Nat.{
  mul_comm, mod-eq_of_lt, mod-eq-sub-mod, mod-lt, mod-add-mod, add-mod-mod, mod-mod,
}
use skynet_server.Common.Bytes.{Bytes}
use skynet_server.Srp.{Openssl}
use skynet_server.Srp.Modular.{mul-mod, pow-mod, pow-add, pow-mul}

-- The group: a modulus, a generator and the multiplier `k`.
pub record Group : Type 0 where
  pub modulus : ℕ
  pub generator : ℕ
  pub multiplier : ℕ

module _ (openssl : Openssl) (group : Group) where
  pub record IsSrp : Type 0 where
    pub modulus_pos : 0 < group.modulus
    pub calc_a_lem : (a : ℕ) → openssl.calc_a a ≡ group.generator ^ a % group.modulus
    pub calc_b_lem :
        (b v : ℕ)
        → openssl.calc_b b v ≡ (group.multiplier * v + group.generator ^ b) % group.modulus
    pub server_key_lem :
        (A v u b : ℕ) → openssl.server_key A v u b ≡ (A * v ^ u % group.modulus) ^ b % group.modulus
    pub client_key_lem :
        (B x a u : ℕ)
        → openssl.client_key B x a u
          ≡ (B + group.modulus - group.multiplier * (group.generator ^ x) % group.modulus)
              ^ (a + u * x)
            % group.modulus
    pub create_verifier_lem :
        (I p : Bytes) (s v : ℕ)
        → openssl.create_verifier I p ≡ some (s, v)
        → v ≡ group.generator ^ openssl.calc_x s I p % group.modulus
    pub bin_to_bn_lem : (n : ℕ) → openssl.bin_to_bn (openssl.bn_to_bin n) ≡ n

sub_round : (n r t : ℕ) → r < n → t < n → ((r + t) % n + n - r) % n ≡ t
sub_round n r t hr ht = elim (Bool-cases (ltb (r + t) n)) [
  | inl below ↦
      let small : r + t < n = ground (arith, below) in
      ap (λ (m : ℕ). (m + n - r) % n) (mod-eq_of_lt small)
      ∙ ap (λ (m : ℕ). m % n) {y = t + n} (omega arith)
      ∙ mod-eq-sub-mod {n = t + n} {m = n} (omega arith)
      ∙ ap (λ (m : ℕ). m % n) {y = t} (omega arith)
      ∙ mod-eq_of_lt ht
  | inr above ↦
      let large : n ≤ r + t = ground (arith, above) in
      ap (λ (m : ℕ). (m + n - r) % n)
        (mod-eq-sub-mod large ∙ mod-eq_of_lt {n = r + t - n} {m = n} (omega arith))
      ∙ ap (λ (m : ℕ). m % n) {y = t} (omega arith)
      ∙ mod-eq_of_lt ht
]

-- A number that has been added modulo `n` is taken away again.
sub-mod : (n m m' t : ℕ) → 0 < n → m % n ≡ m' % n → ((m + t) % n + n - m' % n) % n ≡ t % n
sub-mod n m m' t h e =
    ap (λ (s : ℕ). (s + n - m' % n) % n) (sym (mod-add-mod m n t) ∙ sym (add-mod-mod (m % n) t n))
    ∙ ap (λ (s : ℕ). ((s + t % n) % n + n - m' % n) % n) e
    ∙ sub_round n (m' % n) (t % n) (mod-lt m' h) (mod-lt t h)

module _ (openssl : Openssl) (group : Group) (srp : IsSrp openssl group) where
  -- What the client subtracts from `B` is what the server has added.
  client-base :
      (x b v : ℕ)
      → v ≡ group.generator ^ x % group.modulus
      → (openssl.calc_b b v
            + group.modulus
            - group.multiplier * (group.generator ^ x) % group.modulus)
          % group.modulus
        ≡ group.generator ^ b % group.modulus
  client-base x b v e =
      ap
        (λ (t : ℕ).
          (t + group.modulus - group.multiplier * (group.generator ^ x) % group.modulus)
          % group.modulus)
        (srp.calc_b_lem b v)
      ∙ sub-mod group.modulus (group.multiplier * v) (group.multiplier * (group.generator ^ x))
          (group.generator ^ b) srp.modulus_pos same
    where
      same :
          group.multiplier * v % group.modulus
          ≡ group.multiplier * (group.generator ^ x) % group.modulus
      same =
          ap (λ (t : ℕ). group.multiplier * t % group.modulus) e
          ∙ sym (mul-mod group.multiplier (group.generator ^ x % group.modulus) group.modulus)
          ∙ ap (λ (t : ℕ). group.multiplier % group.modulus * t % group.modulus)
              (mod-mod (group.generator ^ x) group.modulus)
          ∙ mul-mod group.multiplier (group.generator ^ x) group.modulus

  -- `A * v ^ u` is a power of the generator.
  server-base :
      (a x u v : ℕ)
      → v ≡ group.generator ^ x % group.modulus
      → openssl.calc_a a * v ^ u % group.modulus ≡ group.generator ^ (a + x * u) % group.modulus
  server-base a x u v e =
      ap (λ (t : ℕ). t * v ^ u % group.modulus) (srp.calc_a_lem a)
      ∙ ap (λ (t : ℕ). group.generator ^ a % group.modulus * t ^ u % group.modulus) e
      ∙ sym (
          mul-mod (group.generator ^ a % group.modulus) ((group.generator ^ x % group.modulus) ^ u)
            group.modulus)
      ∙ ap (λ (t : ℕ). group.generator ^ a % group.modulus % group.modulus * t % group.modulus)
          (pow-mod (group.generator ^ x) u group.modulus)
      ∙ ap (λ (t : ℕ). t * ((group.generator ^ x) ^ u % group.modulus) % group.modulus)
          (mod-mod (group.generator ^ a) group.modulus)
      ∙ mul-mod (group.generator ^ a) ((group.generator ^ x) ^ u) group.modulus
      ∙ ap (λ (t : ℕ). group.generator ^ a * t % group.modulus) (sym (pow-mul group.generator x u))
      ∙ ap (λ (t : ℕ). t % group.modulus) (sym (pow-add group.generator a (x * u)))

  pub server_key-client_key :
      (a b x u v : ℕ)
      → v ≡ group.generator ^ x % group.modulus
      → openssl.server_key (openssl.calc_a a) v u b ≡ openssl.client_key (openssl.calc_b b v) x a u
  server_key-client_key a b x u v e =
      srp.server_key_lem (openssl.calc_a a) v u b
      ∙ ap (λ (t : ℕ). t ^ b % group.modulus) (server-base a x u v e)
      ∙ pow-mod (group.generator ^ (a + x * u)) b group.modulus
      ∙ ap (λ (t : ℕ). t % group.modulus) exponents
      ∙ sym (pow-mod (group.generator ^ b) (a + u * x) group.modulus)
      ∙ ap (λ (t : ℕ). t ^ (a + u * x) % group.modulus) (sym (client-base x b v e))
      ∙ pow-mod
          (openssl.calc_b b v
            + group.modulus
            - group.multiplier * (group.generator ^ x) % group.modulus)
          (a + u * x) group.modulus
      ∙ sym (srp.client_key_lem (openssl.calc_b b v) x a u)
    where
      exponents : (group.generator ^ (a + x * u)) ^ b ≡ (group.generator ^ b) ^ (a + u * x)
      exponents =
          sym (pow-mul group.generator (a + x * u) b)
          ∙ ap (λ (t : ℕ). group.generator ^ t) (mul_comm (a + x * u) b)
          ∙ ap (λ (t : ℕ). group.generator ^ (b * (a + t))) (mul_comm x u)
          ∙ pow-mul group.generator b (a + u * x)
