-- ===== src/Aes.antt =====
-- Encryption of texts, server/lualib-src/lua-aes.c. The routines of OpenSSL are the parameter `Evp`.
mod Laws
mod Block
mod RoundTrip
mod Tests
use skynet_server.Common.{
  ℕ, ◌+◌, Option, none, some, [], ◌∷◌, ◌++◌, length, take, ltb, if◌then◌else◌,
}
use skynet_server.Common.Bytes.{Bytes}

-- EVP_EncryptUpdate and EVP_EncryptFinal, EVP_DecryptUpdate and EVP_DecryptFinal, in a new context with
-- EVP_aes_128_ecb, a key of 16 bytes and one text: what each writes, where the final call succeeds.
pub record Evp : Type 0 where
  pub encrypt_update : (key text : Bytes) → Bytes
  pub encrypt_final : (key text : Bytes) → Option Bytes
  pub decrypt_update : (key text : Bytes) → Bytes
  pub decrypt_final : (key text : Bytes) → Option Bytes

-- How the functions end: with a string, with nothing, or with an access out of bounds.
pub data Coded : Type 0 where
  pushes : Bytes → Coded
  returns_nothing : Coded
  fault : Coded

-- The two calls that write to `output`, which has `room` bytes, and the string of what they wrote.
abbrev pub write_output : (room : ℕ) → Bytes → Option Bytes → Coded
write_output room first none = if ltb room (length first) then fault else returns_nothing
write_output room first (some last) =
    if ltb room (length (first ++ last)) then fault else pushes (first ++ last)

-- The 16 bytes that OpenSSL reads of the key, of which the last may be the 0 that ends the string.
abbrev pub key_read : Bytes → Bytes
key_read key = take 16 (key ++ (0 ∷ []))

unfoldable pub lencrypt : Evp → (text key : Bytes) → Coded
lencrypt evp text key =
    let k = key_read key in
    if ltb (length key) 15
    then fault
    else write_output (length text + 16) (evp.encrypt_update k text) (evp.encrypt_final k text)

unfoldable pub ldecrypt : Evp → (text key : Bytes) → Coded
ldecrypt evp text key =
    let k = key_read key in
    if ltb (length key) 15
    then fault
    else write_output (length text) (evp.decrypt_update k text) (evp.decrypt_final k text)
