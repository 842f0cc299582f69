-- ===== src/TableHash/Depth.antt =====
-- The tables that have a hash.
use Prim.Native.Nat.{max}
use mathlib.Core.Path.{ap₂}
use skynet_server.Common.{
  ℕ, suc, ◌+◌, ◌≤◌, ◌≡◌, refl, ap, ◌∙◌, inl, inr, Bool, true, false, ◌&&◌, Option, none, some,
  arith, ltb, leb, Bool-cases,
}
use skynet_server.TableHash.{
  Value, integer, float, boolean, string, table, other_type, Entries, no_more, entry, max_depth,
  add_entry, hash_one, hash_entries, times, lhash_table,
}

abbrev pub is_some : Option ℕ → Bool
is_some none = false
is_some (some h) = true

-- Whether all values are of types that have a hash, and how deep the tables are nested.
abbrev mutual
  pub supported : Value → Bool
  supported (table es) = all_supported es
  supported other_type = false
  supported (integer v) = true
  supported (float v) = true
  supported (boolean v) = true
  supported (string v) = true

  pub all_supported : Entries → Bool
  all_supported no_more = true
  all_supported (entry k v es) = (supported k && supported v) && all_supported es

abbrev mutual
  pub height : Value → ℕ
  height (table es) = entries_height es
  height other_type = 0
  height (integer v) = 0
  height (float v) = 0
  height (boolean v) = 0
  height (string v) = 0

  pub entries_height : Entries → ℕ
  entries_height no_more = 0
  entries_height (entry k v es) = max (suc (max (height k) (height v))) (entries_height es)

is_some-times : (d : ℕ) (h : Option ℕ) → is_some (times d h) ≡ is_some h
is_some-times d none = refl
is_some-times d (some h) = refl

is_some-add_entry :
    (h k v : Option ℕ) → is_some (add_entry h k v) ≡ (is_some h && (is_some k && is_some v))
is_some-add_entry none k v = refl
is_some-add_entry (some h) none v = refl
is_some-add_entry (some h) (some k) none = refl
is_some-add_entry (some h) (some k) (some v) = refl

-- Both parts of an entry, one level further in.
both_fit :
    (d hk hv he : ℕ) (sk sv se h : Bool)
    → ((h && ((sk && leb (d + 1 + hk) 16) && (sv && leb (d + 1 + hv) 16)))
        && (se && leb (d + he) 16))
      ≡ (h && (((sk && sv) && se) && leb (d + max (suc (max hk hv)) he) 16))
both_fit d hk hv he sk sv se h = ground arith

mutual
  unfolding hash_one

  hash_one-some :
      (v : Value) (d : ℕ) → is_some (hash_one v d) ≡ (supported v && leb (d + height v) 16)
  hash_one-some (integer v) d = ground arith
  hash_one-some (float v) d = ground arith
  hash_one-some (boolean v) d = ground arith
  hash_one-some (string v) d = ground arith
  hash_one-some other_type d = refl
  hash_one-some (table es) d = elim (Bool-cases (ltb max_depth d)) [
    | inl deep ↦ rw deep (ground arith)
    | inr room ↦ rw room (
        is_some-times (d + 1) (hash_entries es (d + 1) (some 0))
        ∙ hash_entries-some es d (some 0) (ground arith))
  ]

  hash_entries-some :
      (es : Entries) (d : ℕ) (h : Option ℕ)
      → d ≤ 16
      → is_some (hash_entries es (d + 1) h)
        ≡ (is_some h && (all_supported es && leb (d + entries_height es) 16))
  hash_entries-some no_more d h le = ground arith
  hash_entries-some (entry k v es) d h le =
      hash_entries-some es d (add_entry h (hash_one k (d + 1)) (hash_one v (d + 1))) le
      ∙ ap (λ b. b && (all_supported es && leb (d + entries_height es) 16))
          (is_some-add_entry h (hash_one k (d + 1)) (hash_one v (d + 1))
            ∙ ap₂ (λ a b. is_some h && (a && b)) (hash_one-some k (d + 1))
                (hash_one-some v (d + 1)))
      ∙ both_fit d (height k) (height v) (entries_height es) (supported k) (supported v)
          (all_supported es) (is_some h)

-- `lhash_table` of a table gives a hash exactly if all values in it are numbers, booleans, strings or
-- tables and no value is nested more than 16 deep, and fails otherwise.
pub lhash_table-fits :
    (es : Entries)
    → is_some (lhash_table (table es)) ≡ (all_supported es && leb (entries_height es) 16)
unfolding lhash_table
lhash_table-fits es =
    is_some-times 1 (hash_entries es 1 (some 0))
    ∙ ap (λ d. is_some (hash_entries es d (some 0))) (omega arith)
    ∙ hash_entries-some es 0 (some 0) (omega arith)
    ∙ ap (λ n. all_supported es && leb n 16) (omega arith)
