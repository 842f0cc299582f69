-- ===== src/Srp/Tests.antt =====
-- The key exchange in a small group, with the unary numbers for the bytes of a BIGNUM.
use skynet_server.Common.{
  ℕ, ◌+◌, ◌-◌, ◌*◌, ◌%◌, ◌^◌, ◌≡◌, refl, not, some, [], ◌∷◌, arith, length, replicate,
  length-replicate, ◌==◌,
}
use skynet_server.Common.Bytes.{Bytes, codes}
use skynet_server.Srp.{
  Openssl, pushed, lcreate_verifier, random_key, lcreate_client_key, lcreate_server_session_key,
  lcreate_client_session_key,
}
use skynet_server.Srp.Laws.{Group, IsSrp}
use skynet_server.Srp.Agree.{lcreate_client_session_key-agrees}

abbrev small : Group
small = record { modulus = 23; generator = 5; multiplier = 3 }

abbrev x_of : ℕ → Bytes → Bytes → ℕ
x_of s I p = s + length I + length p

abbrev openssl : Openssl
openssl = record {
  bin_to_bn = length;
  bn_to_bin = λ n. replicate n 1;
  create_verifier = λ I p. some (2, 5 ^ x_of 2 I p % 23);
  calc_a = λ a. 5 ^ a % 23;
  calc_b = λ b v. (3 * v + 5 ^ b) % 23;
  calc_u = λ A B. A + B;
  calc_x = x_of;
  verify_a = λ A. not (A % 23 == 0);
  verify_b = λ B. not (B % 23 == 0);
  server_key = λ A v u b. (A * v ^ u % 23) ^ b % 23;
  client_key = λ B x a u. (B + 23 - 3 * (5 ^ x) % 23) ^ (a + u * x) % 23;
}

openssl-IsSrp : IsSrp openssl small
openssl-IsSrp = record {
  modulus_pos = omega arith;
  calc_a_lem = λ a. refl;
  calc_b_lem = λ b v. refl;
  server_key_lem = λ A v u b. refl;
  client_key_lem = λ B x a u. refl;
  create_verifier_lem = λ I p s v e. created I p s v e;
  bin_to_bn_lem = λ n. length-replicate n 1;
}
  where
    created :
        (I p : Bytes) (s v : ℕ)
        → openssl.create_verifier I p ≡ some (s, v)
        → v ≡ 5 ^ x_of s I p % 23
    created I p s v e = cc

-- The name is one byte and the password two, so the verifier is 5 ^ 5 modulo 23.
made :
    lcreate_verifier openssl (some (codes "n")) (some (codes "pw"))
    ≡ pushed (replicate 2 1 ∷ replicate 20 1 ∷ [])
unfolding lcreate_verifier
made = refl

client :
    lcreate_client_key openssl (replicate 3 7 ∷ []) ≡ pushed (replicate 3 1 ∷ replicate 10 1 ∷ [])
unfolding lcreate_client_key random_key
client = refl

-- The first random key gives a `B` that is 0 in the group and is refused.
server :
    lcreate_server_session_key openssl
      (some (replicate 20 1))
      (some (replicate 10 1))
      (replicate 10 7 ∷ replicate 1 7 ∷ [])
    ≡ pushed (replicate 3 1 ∷ replicate 1 1 ∷ replicate 19 1 ∷ [])
unfolding lcreate_server_session_key random_key
server = refl

lcreate_client_session_key-agrees_example :
    lcreate_client_session_key openssl
      (some (codes "n"))
      (some (codes "pw"))
      (some (replicate 2 1))
      (some (replicate 3 1))
      (some (replicate 10 1))
      (some (replicate 19 1))
    ≡ pushed (replicate 3 1 ∷ [])
lcreate_client_session_key-agrees_example =
    lcreate_client_session_key-agrees openssl small openssl-IsSrp (codes "n") (codes "pw")
      (replicate 2 1) (replicate 20 1) (replicate 3 1) (replicate 10 1) (replicate 3 1)
      (replicate 1 1) (replicate 19 1) (replicate 3 7 ∷ []) (replicate 10 7 ∷ replicate 1 7 ∷ [])
      made client server
