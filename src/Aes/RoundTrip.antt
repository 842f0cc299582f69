-- ===== src/Aes/RoundTrip.antt =====
-- A text that is encrypted and decrypted with one key.
use skynet_server.Common.{
  ℕ, ◌+◌, ◌*◌, ◌/◌, ◌≤◌, ◌≡◌, refl, sym, ap, ◌∙◌, false, some, List, [], ◌∷◌, ◌++◌, map, arith,
  length, length-append, ltb, if◌then◌else◌,
}
use skynet_server.Common.Bytes.{Bytes}
use skynet_server.Aes.{Evp, Coded, pushes, fault, write_output, key_read, lencrypt, ldecrypt}
use skynet_server.Aes.Block.{
  concat, AllBlocks, pad, unpad, length-pad, unpad-pad, Cut, text-Cut, sized_blocks, length-concat,
}
use skynet_server.Aes.Laws.{Cipher, IsEcb}

write_output-fits :
    (room : ℕ) (first last : Bytes)
    → length first + length last ≤ room
    → write_output room first (some last) ≡ pushes (first ++ last)
write_output-fits room first last fits =
    ap (λ b. if b then fault else pushes (first ++ last)) {y = false}
      (ground (arith, fits, length-append first last))

-- What both functions do with a key that is long enough.
long_key :
    (key : Bytes) (c : Coded) → 15 ≤ length key → (if ltb (length key) 15 then fault else c) ≡ c
long_key key c long = ap (λ b. if b then fault else c) {y = false} (ground (arith, long))

module _ (cipher : Cipher) (evp : Evp) (ecb : IsEcb cipher evp) where
  blocks_back :
      (k : Bytes) (blocks : List Bytes)
      → AllBlocks blocks
      → map (cipher.decrypt_block k) (map (cipher.encrypt_block k) blocks) ≡ blocks
  blocks_back k [] all = refl
  blocks_back k (b ∷ blocks) (one, all) =
      ap (λ t. t ∷ map (cipher.decrypt_block k) (map (cipher.encrypt_block k) blocks))
        (ecb.block_back k b one)
      ∙ ap (λ t. b ∷ t) (blocks_back k blocks all)

  module _ (text key : Bytes) (long : 15 ≤ length key) where
    abbrev k : Bytes
    k = key_read key

    c : Cut text
    c = text-Cut text

    abbrev coded_blocks : List Bytes
    coded_blocks = map (cipher.encrypt_block k) c.blocks

    abbrev last : Bytes
    last = cipher.encrypt_block k (pad c.rest)

    length-last : length last ≡ 16
    length-last = ecb.block_sized k (pad c.rest) (length-pad c.rest c.short)

    coded_sized : AllBlocks coded_blocks × (length (concat coded_blocks) ≡ 16 * length c.blocks)
    coded_sized = sized_blocks (cipher.encrypt_block k) c.blocks (ecb.block_sized k) c.whole

    length-text : length text ≡ 16 * length c.blocks + length c.rest
    length-text =
        ap length c.text_is
        ∙ omega (arith, length-append (concat c.blocks) c.rest, length-concat c.blocks c.whole)

    encrypted : lencrypt evp text key ≡ pushes (concat coded_blocks ++ last)
    unfolding lencrypt
    encrypted =
        long_key key
          (write_output (length text + 16) (evp.encrypt_update k text) (evp.encrypt_final k text))
          long
        ∙ ap (λ t. write_output (length text + 16) (evp.encrypt_update k t) (evp.encrypt_final k t))
            c.text_is
        ∙ ap
            (λ t.
              write_output (length text + 16) t (evp.encrypt_final k (concat c.blocks ++ c.rest)))
            (ecb.encrypt_update_lem k c.blocks c.rest c.whole c.short)
        ∙ ap (write_output (length text + 16) (concat coded_blocks))
            (ecb.encrypt_final_lem k c.blocks c.rest c.whole c.short)
        ∙ write_output-fits (length text + 16) (concat coded_blocks) last
            (omega (arith, length-last, coded_sized.1, length-text))

    decrypted : ldecrypt evp (concat coded_blocks ++ last) key ≡ pushes text
    unfolding ldecrypt
    decrypted =
        long_key key (write_output room (evp.decrypt_update k coded) (evp.decrypt_final k coded))
          long
        ∙ ap (λ t. write_output room t (evp.decrypt_final k coded))
            (ecb.decrypt_update_lem k coded_blocks last coded_sized.0 length-last
              ∙ ap concat (blocks_back k c.blocks c.whole))
        ∙ ap (write_output room (concat c.blocks)) (
            ecb.decrypt_final_lem k coded_blocks last coded_sized.0 length-last
            ∙ ap unpad (ecb.block_back k (pad c.rest) (length-pad c.rest c.short))
            ∙ unpad-pad c.rest c.short)
        ∙ write_output-fits room (concat c.blocks) c.rest (
            omega (
              arith,
              c.short,
              length-append (concat coded_blocks) last,
              length-last,
              coded_sized.1,
              length-concat c.blocks c.whole,
            ))
        ∙ ap pushes (sym c.text_is)
      where
        coded : Bytes
        coded = concat coded_blocks ++ last

        room : ℕ
        room = length coded

    -- If OpenSSL computes an electronic code book with standard block padding, then with a key of at
    -- least 15 bytes `lencrypt` of any text stays within its buffer and gives the whole blocks of 16
    -- bytes that are more than the text, at least one byte and at most 16, and `ldecrypt` of that
    -- with the same key stays within its buffer and gives the text.
    pub lencrypt-ldecrypt :
        (coded : Bytes) × (lencrypt evp text key ≡ pushes coded)
        × (length coded ≡ 16 * (length text / 16) + 16)
        × (ldecrypt evp coded key ≡ pushes text)
    lencrypt-ldecrypt = (
      concat coded_blocks ++ last,
      encrypted,
      omega (
        arith,
        c.short,
        length-append (concat coded_blocks) last,
        length-last,
        coded_sized.1,
        length-text,
      ),
      decrypted,
    )
