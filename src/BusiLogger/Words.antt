-- ===== src/BusiLogger/Words.antt =====
-- The words of the parameter of the service, against the way a parameter is put together.
use skynet_server.Common.{
  ℕ, ◌≡◌, ◌<◌, ap, ◌∙◌, true, false, none, some, [], ◌∷◌, ◌++◌, length, if◌then◌else◌, lt→ltb, ◌&&◌,
}
use skynet_server.Common.Bytes.{Bytes}
use skynet_server.BusiLogger.{BusiLogger}
use skynet_server.BusiLogger.Init.{is_space, put_byte, starts_word, words, fits, store_words}

-- A word: at least one byte and no space.
abbrev pub IsPlain : Bytes → Type 0
IsPlain [] = ⊥
IsPlain (c ∷ []) = is_space c ≡ false
IsPlain (c ∷ d ∷ w) = (is_space c ≡ false) × IsPlain (d ∷ w)

-- The three words of a parameter, with spaces between them.
abbrev pub parameter : Bytes → Bytes → Bytes → Bytes
parameter name dir prefix = name ++ (32 ∷ (dir ++ (32 ∷ prefix)))

-- The words are words and fit the arrays that they are stored to.
pub record IsParameter (name dir prefix : Bytes) : Type 0 where
  pub plain_name : IsPlain name
  pub plain_dir : IsPlain dir
  pub plain_prefix : IsPlain prefix
  pub fits_name : length name < 128
  pub fits_dir : length dir < 256
  pub fits_prefix : length prefix < 256

starts-IsPlain : (w rest : Bytes) → IsPlain w → starts_word (w ++ rest) ≡ true
starts-IsPlain [] rest h = absurd h
starts-IsPlain (c ∷ []) rest h = ap (λ b. if b then false else true) h
starts-IsPlain (c ∷ d ∷ w) rest h = ap (λ b. if b then false else true) h.0

words-byte :
    (c : ℕ) (text : Bytes)
    → is_space c ≡ false
    → words (c ∷ text) ≡ put_byte c (starts_word text) (words text)
words-byte c text h =
    ap (λ b. if b then words text else put_byte c (starts_word text) (words text)) h

words-word : (w rest : Bytes) → IsPlain w → words (w ++ (32 ∷ rest)) ≡ w ∷ words rest
words-word [] rest h = absurd h
words-word (c ∷ []) rest h = words-byte c (32 ∷ rest) h
words-word (c ∷ d ∷ w) rest h =
    words-byte c (d ∷ w ++ (32 ∷ rest)) h.0
    ∙ ap (λ b. put_byte c b (words (d ∷ w ++ (32 ∷ rest)))) (starts-IsPlain (d ∷ w) (32 ∷ rest) h.1)
    ∙ ap (put_byte c true) (words-word (d ∷ w) rest h.1)

words-last : (w : Bytes) → IsPlain w → words w ≡ w ∷ []
words-last [] h = absurd h
words-last (c ∷ []) h = words-byte c [] h
words-last (c ∷ d ∷ w) h =
    words-byte c (d ∷ w) h.0
    ∙ ap (λ b. put_byte c b (words (d ∷ w))) (starts d w h.1)
    ∙ ap (put_byte c true) (words-last (d ∷ w) h.1)
  where
    starts : (d : ℕ) (w : Bytes) → IsPlain (d ∷ w) → starts_word (d ∷ w) ≡ true
    starts d [] h = ap (λ b. if b then false else true) h
    starts d (e ∷ w) h = ap (λ b. if b then false else true) h.0

pub words-parameter :
    (name dir prefix : Bytes)
    → IsPlain name
    → IsPlain dir
    → IsPlain prefix
    → words (parameter name dir prefix) ≡ name ∷ dir ∷ prefix ∷ []
words-parameter name dir prefix n d p =
    words-word name (dir ++ (32 ∷ prefix)) n
    ∙ ap (λ t. name ∷ t) (words-word dir prefix d ∙ ap (λ t. dir ∷ t) (words-last prefix p))

pub store_words-fits :
    (name dir prefix : Bytes) (inst : BusiLogger)
    → length name < 128
    → length dir < 256
    → length prefix < 256
    → store_words (name ∷ dir ∷ prefix ∷ []) inst
      ≡ some (record inst { log_dir = dir; log_prefix = prefix })
store_words-fits name dir prefix inst n d p =
    ap (λ b. if b then some (record inst { log_dir = dir; log_prefix = prefix }) else none)
      (ap (λ b. b && (fits 256 dir && fits 256 prefix)) (lt→ltb (length name) 128 n)
        ∙ ap (λ b. b && fits 256 prefix) (lt→ltb (length dir) 256 d)
        ∙ lt→ltb (length prefix) 256 p)
