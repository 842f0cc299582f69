-- ===== src/Aes/Laws.antt =====
-- What the documentation of OpenSSL says of the routines: electronic code book of a block cipher, with
-- standard block padding; decryption holds back the last block for the final call.
use skynet_server.Common.{◌<◌, ◌≡◌, some, List, map, ◌++◌, length}
use skynet_server.Common.Bytes.{Bytes}
use skynet_server.Aes.{Evp}
use skynet_server.Aes.Block.{concat, AllBlocks, pad, unpad}

-- One block under a key, and back.
pub record Cipher : Type 0 where
  pub encrypt_block : (key block : Bytes) → Bytes
  pub decrypt_block : (key block : Bytes) → Bytes

module _ (cipher : Cipher) (evp : Evp) where
  pub record IsEcb : Type 0 where
    pub block_sized : (k b : Bytes) → length b ≡ 16 → length (cipher.encrypt_block k b) ≡ 16
    pub block_back :
        (k b : Bytes) → length b ≡ 16 → cipher.decrypt_block k (cipher.encrypt_block k b) ≡ b
    pub encrypt_update_lem :
        (k : Bytes) (blocks : List Bytes) (rest : Bytes)
        → AllBlocks blocks
        → length rest < 16
        → evp.encrypt_update k (concat blocks ++ rest)
          ≡ concat (map (cipher.encrypt_block k) blocks)
    pub encrypt_final_lem :
        (k : Bytes) (blocks : List Bytes) (rest : Bytes)
        → AllBlocks blocks
        → length rest < 16
        → evp.encrypt_final k (concat blocks ++ rest) ≡ some (cipher.encrypt_block k (pad rest))
    pub decrypt_update_lem :
        (k : Bytes) (blocks : List Bytes) (last : Bytes)
        → AllBlocks blocks
        → length last ≡ 16
        → evp.decrypt_update k (concat blocks ++ last)
          ≡ concat (map (cipher.decrypt_block k) blocks)
    pub decrypt_final_lem :
        (k : Bytes) (blocks : List Bytes) (last : Bytes)
        → AllBlocks blocks
        → length last ≡ 16
        → evp.decrypt_final k (concat blocks ++ last) ≡ unpad (cipher.decrypt_block k last)
