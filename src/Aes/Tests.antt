-- ===== src/Aes/Tests.antt =====
-- The round trip at a concrete input, with a cipher that adds the first byte of the key to the first byte
-- of a block.
use skynet_server.Common.{
  ℕ, zero, suc, ◌+◌, ◌-◌, ◌*◌, ◌/◌, ◌<◌, ◌≡◌, refl, sym, ap, ◌∙◌, some, List, [], ◌∷◌, ◌++◌, map,
  arith, length, length-append, take, drop, get_or, append_assoc,
}
use skynet_server.Common.Bytes.{Bytes, codes, take-append, drop-append}
use skynet_server.Aes.{Evp, pushes, lencrypt, ldecrypt}
use skynet_server.Aes.Block.{concat, AllBlocks, pad, unpad, length-concat}
use skynet_server.Aes.Laws.{Cipher, IsEcb}
use skynet_server.Aes.RoundTrip.{lencrypt-ldecrypt}

abbrev shift : Bytes → Bytes → Bytes
shift key [] = []
shift key (b ∷ block) = (b + get_or key 0 0) ∷ block

abbrev unshift : Bytes → Bytes → Bytes
unshift key [] = []
unshift key (b ∷ block) = (b - get_or key 0 0) ∷ block

abbrev shifting : Cipher
shifting = record { encrypt_block = shift; decrypt_block = unshift }

-- The first `n` blocks of a text under `f`.
abbrev code_blocks : (Bytes → Bytes) → ℕ → Bytes → Bytes
code_blocks f zero text = []
code_blocks f (suc n) text = f (take 16 text) ++ code_blocks f n (drop 16 text)

abbrev shifting_evp : Evp
shifting_evp = record {
  encrypt_update = λ key text. code_blocks (shift key) (length text / 16) text;
  encrypt_final = λ key text. some (shift key (pad (drop (16 * (length text / 16)) text)));
  decrypt_update = λ key text. code_blocks (unshift key) ((length text - 16) / 16) text;
  decrypt_final = λ key text. unpad (unshift key (drop (length text - 16) text));
}

code_blocks-concat :
    (f : Bytes → Bytes) (blocks : List Bytes) (rest : Bytes)
    → AllBlocks blocks
    → code_blocks f (length blocks) (concat blocks ++ rest) ≡ concat (map f blocks)
code_blocks-concat f [] rest all = refl
code_blocks-concat f (b ∷ blocks) rest (one, all) =
    ap (λ t. f (take 16 t) ++ code_blocks f (length blocks) (drop 16 t))
      (append_assoc b (concat blocks) rest)
    ∙ ap (λ t. f t ++ code_blocks f (length blocks) (drop 16 (b ++ (concat blocks ++ rest))))
        (take-append b (concat blocks ++ rest) 16 (sym one))
    ∙ ap (λ n. f b ++ code_blocks f (length blocks) (drop n (b ++ (concat blocks ++ rest))))
        (sym one)
    ∙ ap (λ t. f b ++ code_blocks f (length blocks) t) (drop-append b (concat blocks ++ rest))
    ∙ ap (λ t. f b ++ t) (code_blocks-concat f blocks rest all)

-- The number of the whole blocks, and what is behind them.
count :
    (blocks : List Bytes) (rest : Bytes)
    → AllBlocks blocks
    → length rest < 16
    → length (concat blocks ++ rest) / 16 ≡ length blocks
count blocks rest all short =
    omega (arith, short, length-append (concat blocks) rest, length-concat blocks all)

behind :
    (blocks : List Bytes) (rest : Bytes) (n : ℕ)
    → n ≡ length (concat blocks)
    → drop n (concat blocks ++ rest) ≡ rest
behind blocks rest n e =
    ap (λ m. drop m (concat blocks ++ rest)) e ∙ drop-append (concat blocks) rest

shifting-IsEcb : IsEcb shifting shifting_evp
shifting-IsEcb = record {
  block_sized = sized;
  block_back = back;
  encrypt_update_lem = λ k blocks rest all short.
      ap (λ n. code_blocks (shift k) n (concat blocks ++ rest)) (count blocks rest all short)
      ∙ code_blocks-concat (shift k) blocks rest all;
  encrypt_final_lem = λ k blocks rest all short.
      ap (λ t. some (shift k (pad t)))
        (behind blocks rest (16 * (length (concat blocks ++ rest) / 16))
          (omega (arith, count blocks rest all short, length-concat blocks all)));
  decrypt_update_lem = λ k blocks last all one.
      ap (λ n. code_blocks (unshift k) n (concat blocks ++ last))
        (omega (arith, one, length-append (concat blocks) last, length-concat blocks all))
      ∙ code_blocks-concat (unshift k) blocks last all;
  decrypt_final_lem = λ k blocks last all one.
      ap (λ t. unpad (unshift k t))
        (behind blocks last (length (concat blocks ++ last) - 16)
          (omega (arith, one, length-append (concat blocks) last)));
}
  where
    sized : (k b : Bytes) → length b ≡ 16 → length (shift k b) ≡ 16
    sized k [] one = one
    sized k (x ∷ b) one = one

    back : (k b : Bytes) → length b ≡ 16 → unshift k (shift k b) ≡ b
    back k [] one = refl
    back k (x ∷ b) one = ap (λ y. y ∷ b) (omega arith)

abbrev text : Bytes
text = codes "the seventeen byt"

abbrev key : Bytes
key = codes "0123456789abcdef"

lencrypt-ldecrypt_example :
    (coded : Bytes) × (lencrypt shifting_evp text key ≡ pushes coded)
    × (length coded ≡ 32)
    × (ldecrypt shifting_evp coded key ≡ pushes text)
lencrypt-ldecrypt_example =
    lencrypt-ldecrypt shifting shifting_evp shifting-IsEcb text key (omega arith)
