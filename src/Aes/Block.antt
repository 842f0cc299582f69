-- ===== src/Aes/Block.antt =====
-- Texts as blocks of 16 bytes, and the padding of the last.
use skynet_server.Common.{
  ℕ, zero, suc, ◌+◌, ◌-◌, ◌*◌, ◌≤◌, ◌<◌, ◌≡◌, refl, ap, ◌∙◌, Bool, true, false, ◌&&◌, ◌||◌, Option,
  none, some, List, [], ◌∷◌, ◌++◌, not, sym, inl, inr, Bool-cases, tests, map, append_assoc, arith,
  length, length-append, length-replicate, length-take, length-drop, take, drop, take-append-drop,
  replicate, get_or, ltb, ◌==◌, if◌then◌else◌,
}
use skynet_server.Common.Bytes.{Bytes, take-append, drop-append}

abbrev pub concat : List Bytes → Bytes
concat [] = []
concat (b ∷ bs) = b ++ concat bs

abbrev pub AllBlocks : List Bytes → Type 0
AllBlocks [] = Unit
AllBlocks (b ∷ bs) = (length b ≡ 16) × AllBlocks bs

-- Standard block padding: as many bytes as there is room, each of them that number.
abbrev pub pad : Bytes → Bytes
pad rest = let n = 16 - length rest in rest ++ replicate n n

abbrev pub all_same : ℕ → Bytes → Bool
all_same n [] = true
all_same n (b ∷ bs) = (b == n) && all_same n bs

abbrev pub unpad : Bytes → Option Bytes
unpad block =
    let n = get_or block 15 0 in
    if (n == 0) || (ltb 16 n || not (all_same n (drop (16 - n) block)))
    then none
    else some (take (16 - n) block)

get_or-replicate :
    (rest : Bytes) (n c i d : ℕ)
    → length rest ≤ i
    → i < length rest + n
    → get_or (rest ++ replicate n c) i d ≡ c
get_or-replicate [] zero c i d low high = absurd (omega (arith, high))
get_or-replicate [] (suc n) c zero d low high = refl
get_or-replicate [] (suc n) c (suc i) d low high =
    get_or-replicate [] n c i d (omega arith) (omega (arith, high))
get_or-replicate (b ∷ rest) n c zero d low high = absurd (omega (arith, low))
get_or-replicate (b ∷ rest) n c (suc i) d low high =
    get_or-replicate rest n c i d (omega (arith, low)) (omega (arith, high))

all_same-replicate : (n m : ℕ) → all_same n (replicate m n) ≡ true
all_same-replicate n zero = refl
all_same-replicate n (suc m) =
    let same : (n == n) ≡ true = ground arith in rw same (all_same-replicate n m)

pub length-pad : (rest : Bytes) → length rest < 16 → length (pad rest) ≡ 16
length-pad rest short = omega (
  arith,
  short,
  length-append rest (replicate (16 - length rest) (16 - length rest)),
  length-replicate (16 - length rest) (16 - length rest),
)

pub unpad-pad : (rest : Bytes) → length rest < 16 → unpad (pad rest) ≡ some rest
unpad-pad rest short =
    ap tested (get_or-replicate rest n n 15 0 (omega (arith, short)) (omega (arith, short)))
    ∙ ap (λ k. kept k) {y = length rest} (omega (arith, short))
    ∙ ap
        (λ t.
          if (n == 0) || (ltb 16 n || not (all_same n t))
          then none
          else some (take (length rest) (pad rest)))
        (drop-append rest (replicate n n))
    ∙ ap
        (λ b.
          if (n == 0) || (ltb 16 n || not b) then none else some (take (length rest) (pad rest)))
        (all_same-replicate n n)
    ∙ ap (λ b. if b then none else some (take (length rest) (pad rest))) {y = false}
        (ground (arith, short))
    ∙ ap some (take-append rest (replicate n n) (length rest) refl)
  where
    n : ℕ
    n = 16 - length rest

    tested : ℕ → Option Bytes
    tested m =
        if (m == 0) || (ltb 16 m || not (all_same m (drop (16 - m) (pad rest))))
        then none
        else some (take (16 - m) (pad rest))

    kept : ℕ → Option Bytes
    kept k =
        if (n == 0) || (ltb 16 n || not (all_same n (drop k (pad rest))))
        then none
        else some (take k (pad rest))

-- A text cut into whole blocks and less than one more.
pub record Cut (text : Bytes) : Type 0 where
  pub blocks : List Bytes
  pub rest : Bytes
  pub whole : AllBlocks blocks
  pub short : length rest < 16
  pub text_is : text ≡ concat blocks ++ rest

text_cut : (fuel : ℕ) (text : Bytes) → length text < fuel → Cut text
text_cut zero text less = absurd (omega (arith, less))
text_cut (suc fuel) text less = elim (Bool-cases (ltb (length text) 16)) [
  | inl few ↦ record {
    blocks = [];
    rest = text;
    whole = tt;
    short = omega (tests, few);
    text_is = refl;
  }
  | inr many ↦
      let long : 16 ≤ length text = ground (arith, many) in
      let later = text_cut fuel (drop 16 text) (omega (arith, less, long, length-drop 16 text)) in
      record {
        blocks = take 16 text ∷ later.blocks;
        rest = later.rest;
        whole = (omega (arith, long, length-take 16 text), later.whole);
        short = later.short;
        text_is =
            sym (take-append-drop 16 text)
            ∙ ap (λ t. take 16 text ++ t) later.text_is
            ∙ sym (append_assoc (take 16 text) (concat later.blocks) later.rest);
      }
]

pub text-Cut : (text : Bytes) → Cut text
text-Cut text = text_cut (suc (length text)) text (omega arith)

pub sized_blocks :
    (f : Bytes → Bytes) (blocks : List Bytes)
    → ((b : Bytes) → length b ≡ 16 → length (f b) ≡ 16)
    → AllBlocks blocks
    → AllBlocks (map f blocks) × (length (concat (map f blocks)) ≡ 16 * length blocks)
sized_blocks f [] sized all = (tt, refl)
sized_blocks f (b ∷ blocks) sized (one, all) =
    let later = sized_blocks f blocks sized all in
    (
      (sized b one, later.0),
      omega (arith, sized b one, later.1, length-append (f b) (concat (map f blocks))),
    )

pub length-concat :
    (blocks : List Bytes) → AllBlocks blocks → length (concat blocks) ≡ 16 * length blocks
length-concat [] all = refl
length-concat (b ∷ blocks) (one, all) =
    omega (arith, one, length-concat blocks all, length-append b (concat blocks))
