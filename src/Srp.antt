-- ===== src/Srp.antt =====
-- The key exchange of server/lualib-src/lua-srp.c: what the functions do with the numbers and the
-- random keys. The routines of OpenSSL are parameters.
pub mod Modular
pub mod Laws
pub mod Agree
mod Tests
use skynet_server.Common.{
  ℕ, Bool, true, false, Option, none, some, List, [], ◌∷◌, ltb, length, if◌then◌else◌,
}
use skynet_server.Common.Bytes.{Bytes}

-- The routines, for the group that `SRP_get_default_gN("1024")` gives; a BIGNUM is a number.
pub record Openssl : Type 0 where
  pub bin_to_bn : Bytes → ℕ
  pub bn_to_bin : ℕ → Bytes
  pub create_verifier : Bytes → Bytes → Option (ℕ × ℕ)
  pub calc_a : ℕ → ℕ
  pub calc_b : ℕ → ℕ → ℕ
  pub calc_u : ℕ → ℕ → ℕ
  pub calc_x : ℕ → Bytes → Bytes → ℕ
  pub verify_a : ℕ → Bool
  pub verify_b : ℕ → Bool
  pub server_key : ℕ → ℕ → ℕ → ℕ → ℕ
  pub client_key : ℕ → ℕ → ℕ → ℕ → ℕ

-- How a function ends: with the strings that it has pushed, with an error of Lua, with a failed
-- assertion, or not, when every random key that comes is refused.
pub data Result : Type 0 where
  pushed : List Bytes → Result
  lua_error : Result
  assertion : Result
  forever : Result

-- An argument that should be a string.
abbrev pub with_string : Option Bytes → (Bytes → Result) → Result
with_string none rest = lua_error
with_string (some s) rest = rest s

-- What is done with the key, where the loop ends.
abbrev pub with_key : Option ℕ → (ℕ → Result) → Result
with_key none rest = forever
with_key (some key) rest = rest key

module _ (openssl : Openssl) where
  -- `push_bn`, in front of the strings that are pushed after it.
  abbrev pub push_bn : ℕ → Result → Result
  push_bn bn (pushed strings) =
      if ltb (length (openssl.bn_to_bin bn)) 1024
      then pushed (openssl.bn_to_bin bn ∷ strings)
      else assertion
  push_bn bn (lua_error) = lua_error
  push_bn bn (assertion) = assertion
  push_bn bn (forever) = forever

  abbrev pub lua_tobn : Option Bytes → (ℕ → Result) → Result
  lua_tobn s rest = with_string s (λ s. rest (openssl.bin_to_bn s))

  -- The loops: the first random key that `accepts`, of the bytes that `RAND_bytes` gives.
  unfoldable pub random_key : (ℕ → Bool) → List Bytes → Option ℕ
  random_key accepts [] = none
  random_key accepts (tmp ∷ random) =
      let later = random_key accepts random in
      if accepts (openssl.bin_to_bn tmp) then some (openssl.bin_to_bn tmp) else later

  abbrev pub push_verifier : Option (ℕ × ℕ) → Result
  push_verifier none = pushed []
  push_verifier (some (s, v)) = push_bn s (push_bn v (pushed []))

  unfoldable pub lcreate_verifier : Option Bytes → Option Bytes → Result
  lcreate_verifier I p =
      with_string I (λ I. with_string p (λ p. push_verifier (openssl.create_verifier I p)))

  abbrev pub push_client_key : ℕ → Result
  push_client_key a = push_bn a (push_bn (openssl.calc_a a) (pushed []))

  unfoldable pub lcreate_client_key : List Bytes → Result
  unfolding random_key
  lcreate_client_key random =
      with_key (random_key (λ a. openssl.verify_a (openssl.calc_a a)) random) push_client_key

  abbrev pub push_session_key : ℕ → ℕ → ℕ → Result
  push_session_key v A b =
      let B : ℕ = openssl.calc_b b v in
      push_bn (openssl.server_key A v (openssl.calc_u A B) b) (push_bn b (push_bn B (pushed [])))

  unfoldable pub lcreate_server_session_key : Option Bytes → Option Bytes → List Bytes → Result
  unfolding random_key
  lcreate_server_session_key v A random = lua_tobn v (λ v. lua_tobn A (λ A.
      with_key (random_key (λ b. openssl.verify_b (openssl.calc_b b v)) random)
        (push_session_key v A)))

  abbrev pub client_session_key : Bytes → Bytes → ℕ → ℕ → ℕ → ℕ → ℕ
  client_session_key I p s a A B =
      openssl.client_key B (openssl.calc_x s I p) a (openssl.calc_u A B)

  unfoldable pub lcreate_client_session_key : (I p s a A B : Option Bytes) → Result
  lcreate_client_session_key I p s a A B = with_string I (λ I. with_string p (λ p. lua_tobn s (λ s.
      lua_tobn a (λ a.
        lua_tobn A (λ A. lua_tobn B (λ B. push_bn (client_session_key I p s a A B) (pushed [])))))))

  -- One random key, which is not tested.
  unfoldable pub lrandom : List Bytes → Result
  unfolding random_key
  lrandom random = with_key (random_key (λ r. true) random) (λ r. push_bn r (pushed []))
