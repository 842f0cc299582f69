-- ===== src/BusiLogger/Init.antt =====
-- `busilogger_init`: the three words of the parameter, the first file, and the name under which the
-- service is known.
use skynet_server.Common.{
  ℕ, Bool, true, false, ◌&&◌, ◌||◌, Option, none, some, List, [], ◌∷◌, ◌++◌, length, ltb, leb, ◌==◌,
  if◌then◌else◌,
}
use skynet_server.Common.Bytes.{Bytes}
use skynet_server.Common.Int.{pos, negsuc, ◌==ℤ◌}
use skynet_server.BusiLogger.{
  Handle, BusiLogger, Answers, callback, register, Outcome, busi_update_name,
}

-- `isspace`
abbrev pub is_space : ℕ → Bool
is_space c = c == 32 || (leb 9 c && leb c 13)

-- A byte in front of the words that follow it; `inside` tells whether the byte after it belongs to the
-- first of them.
abbrev pub put_byte : ℕ → (inside : Bool) → List Bytes → List Bytes
put_byte c true (w ∷ ws) = (c ∷ w) ∷ ws
put_byte c _ ws = (c ∷ []) ∷ ws

abbrev pub starts_word : Bytes → Bool
starts_word [] = false
starts_word (c ∷ text) = if is_space c then false else true

-- The words that `sscanf` finds for `%s %s %s` and beyond.
abbrev pub words : Bytes → List Bytes
words [] = []
words (c ∷ text) =
    let rest = words text in if is_space c then rest else put_byte c (starts_word text) rest

-- A word and its terminator fit an array of `size` bytes.
abbrev pub fits : ℕ → Bytes → Bool
fits size word = ltb (length word) size

-- What the first three words are stored to: `service_name`, `log_dir` and `log_prefix`. `none`: a
-- word does not fit.
abbrev pub store_words : List Bytes → BusiLogger → Option BusiLogger
store_words [] inst = some inst
store_words (name ∷ []) inst = if fits 128 name then some inst else none
store_words (name ∷ dir ∷ []) inst =
    if fits 128 name && fits 256 dir then some (record inst { log_dir = dir }) else none
store_words (name ∷ dir ∷ prefix ∷ more) inst =
    if fits 128 name && (fits 256 dir && fits 256 prefix)
    then some (record inst { log_dir = dir; log_prefix = prefix })
    else none

-- `service_name`, where `n` is 3.
abbrev pub service_name : List Bytes → Option Bytes
service_name (name ∷ dir ∷ prefix ∷ more) = some name
service_name _ = none

-- From the test of `inst->handle` on.
abbrev pub register_name : Option Handle → Bytes → Outcome → Outcome
register_name none name named = record named { result = pos 1 }
register_name (some h) name named = record named {
  result = pos 0;
  calls = named.calls ++ (callback ∷ register name ∷ []);
}

abbrev pub registered : Bytes → Outcome → Outcome
registered name named = register_name named.inst.handle name named

abbrev pub with_close : Outcome → Outcome
with_close named =
    if named.result ==ℤ negsuc 0
    then record named { inst = record named.inst { close = true } }
    else named

module _ (mktime_localtime : ℕ → ℕ) (strftime : ℕ → Bytes) where
  -- Behind `sscanf`.
  unfoldable pub init_words : Option Bytes → BusiLogger → Answers → Outcome
  unfolding busi_update_name
  init_words none inst io = record { result = pos 1; inst = inst; calls = [] }
  init_words (some name) inst io =
      registered name (with_close (busi_update_name mktime_localtime strftime inst io))

  abbrev pub init_stored : Option BusiLogger → Option Bytes → Answers → Option Outcome
  init_stored none name io = none
  init_stored (some stored) name io = some (init_words name stored io)

  -- `none` as a parameter is NULL; as a result, a word that is longer than its array.
  unfoldable pub busilogger_init : BusiLogger → Option Bytes → Answers → Option Outcome
  unfolding init_words
  busilogger_init inst none io = some (record { result = pos 1; inst = inst; calls = [] })
  busilogger_init inst (some parm) io =
      init_stored (store_words (words parm) inst) (service_name (words parm)) io
