-- ===== src/TableHash.antt =====
-- The hash of Lua values, server/lualib-src/lua-hash.c. An `int` is its 32 bits, a number below 2^32:
-- the sums and products wrap.
pub mod Order
pub mod Depth
mod Tests
use Prim.Native.Nat.{bit_xor}
use skynet_server.Common.{
  ℕ, zero, suc, ◌+◌, ◌-◌, ◌*◌, ◌/◌, ◌%◌, ◌^◌, Bool, true, false, ◌||◌, Option, none, some, List, [],
  ◌∷◌, ltb, leb, if◌then◌else◌,
}
use skynet_server.Common.Bytes.{Bytes}

-- What `_hash_one` tells apart. An integer and a float are their 64 bits; the entries of a table are
-- those that `lua_next`, or what `__pairs` returns, goes through, in that order.
mutual
  pub data Value : Type 0 where
    integer : ℕ → Value
    float : ℕ → Value
    boolean : Bool → Value
    string : Bytes → Value
    table : Entries → Value
    other_type : Value

  pub data Entries : Type 0 where
    no_more : Entries
    entry : (key value : Value) → Entries → Entries

-- MAX_DEPTH
abbrev pub max_depth : ℕ
max_depth = 16

abbrev pub fold64 : ℕ → ℕ
fold64 value = bit_xor value (value / 2 ^ 32) % 2 ^ 32

-- An integer that fits 32 bits with its sign is its own hash.
unfoldable pub hash_number : (is_integer : Bool) → ℕ → ℕ
hash_number true v = if ltb v (2 ^ 31) || leb (2 ^ 64 - 2 ^ 31) v then v % 2 ^ 32 else fold64 v
hash_number false v = fold64 v

unfoldable pub hash_boolean : Bool → ℕ
hash_boolean true = 1231
hash_boolean false = 1237

-- A `char` of 128 and more is negative.
abbrev pub char_value : ℕ → ℕ
char_value b = if ltb b 128 then b else b + 2 ^ 32 - 256

-- The loop of `_hash_string`.
unfoldable pub hash_bytes : ℕ → Bytes → ℕ
hash_bytes h [] = h
hash_bytes h (b ∷ bs) = hash_bytes ((31 * h + char_value b) % 2 ^ 32) bs

unfoldable pub hash_string : Bytes → ℕ
unfolding hash_bytes
hash_string str = hash_bytes 0 str

-- `h += (kh ^ vh)`, where nothing has failed.
abbrev pub add_entry : Option ℕ → Option ℕ → Option ℕ → Option ℕ
add_entry (some h) (some kh) (some vh) = some ((h + bit_xor kh vh) % 2 ^ 32)
add_entry (some h) (some kh) none = none
add_entry (some h) none vh = none
add_entry none kh vh = none

-- `h * depth`
abbrev pub times : ℕ → Option ℕ → Option ℕ
times depth none = none
times depth (some h) = some (h * depth % 2 ^ 32)

-- `none` is `luaL_error`, which ends the whole call.
unfoldable mutual
  pub hash_one : Value → (depth : ℕ) → Option ℕ
  hash_one (integer v) depth = if ltb max_depth depth then none else some (hash_number true v)
  hash_one (float v) depth = if ltb max_depth depth then none else some (hash_number false v)
  hash_one (boolean v) depth = if ltb max_depth depth then none else some (hash_boolean v)
  hash_one (string str) depth = if ltb max_depth depth then none else some (hash_string str)
  hash_one (table entries) depth =
      let h = hash_entries entries (depth + 1) (some 0) in
      if ltb max_depth depth then none else times (depth + 1) h
  hash_one other_type depth = none

  -- The loop of `_hash_table`.
  pub hash_entries : Entries → (depth : ℕ) → Option ℕ → Option ℕ
  hash_entries no_more depth h = h
  hash_entries (entry key value rest) depth h =
      hash_entries rest depth (add_entry h (hash_one key depth) (hash_one value depth))

-- `lhash_table`: the argument must be a table.
unfoldable pub lhash_table : Value → Option ℕ
unfolding hash_one
lhash_table (table entries) = times 1 (hash_entries entries 1 (some 0))
lhash_table value = none
