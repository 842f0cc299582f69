-- ===== src/TableHash/Order.antt =====
-- The hash of a table and the order in which its entries are visited.
use skynet_server.Common.{ℕ, ◌+◌, ◌≡◌, refl, ap, ◌∙◌, Option, none, some, arith, ltb, if◌then◌else◌}
use mathlib.Core.Path.{ap₂}
use skynet_server.TableHash.{
  Value, table, Entries, no_more, entry, max_depth, add_entry, hash_one, hash_entries, times,
  lhash_table,
}

-- The same value, but for the order of the entries in the tables of it, at any depth.
mutual
  pub data SameValue : Value → Value → Type 0 where
    itself : {v : Value} → SameValue v v
    tables : {es fs : Entries} → SameEntries es fs → SameValue (table es) (table fs)

  pub data SameEntries : Entries → Entries → Type 0 where
    nothing_more : SameEntries no_more no_more
    same_entry :
        {k l v w : Value} {es fs : Entries}
        → SameValue k l
        → SameValue v w
        → SameEntries es fs
        → SameEntries (entry k v es) (entry l w fs)
    swapped :
        {k l v w : Value} {es : Entries}
        → SameEntries (entry k v (entry l w es)) (entry l w (entry k v es))
    chained : {es fs gs : Entries} → SameEntries es fs → SameEntries fs gs → SameEntries es gs

-- Two entries add up to the same in either order, and fail together.
add_two : (h k v l w : Option ℕ) → add_entry (add_entry h k v) l w ≡ add_entry (add_entry h l w) k v
add_two none k v l w = refl
add_two (some h) none v none w = refl
add_two (some h) none v (some l) none = refl
add_two (some h) none v (some l) (some w) = refl
add_two (some h) (some k) none none w = refl
add_two (some h) (some k) none (some l) none = refl
add_two (some h) (some k) none (some l) (some w) = refl
add_two (some h) (some k) (some v) none w = refl
add_two (some h) (some k) (some v) (some l) none = refl
add_two (some h) (some k) (some v) (some l) (some w) = ap some (omega arith)

-- The hashes of values that are the same but for the order of entries, and of their entries.
mutual
  unfolding hash_one

  hash_one-SameValue :
      {v w : Value} → SameValue v w → (depth : ℕ) → hash_one v depth ≡ hash_one w depth
  hash_one-SameValue itself depth = refl
  hash_one-SameValue (tables same) depth =
      ap (λ h. if ltb max_depth depth then none else times (depth + 1) h)
        (hash_entries-SameEntries same (depth + 1) (some 0))

  hash_entries-SameEntries :
      {es fs : Entries}
      → SameEntries es fs
      → (depth : ℕ) (h : Option ℕ) → hash_entries es depth h ≡ hash_entries fs depth h
  hash_entries-SameEntries nothing_more depth h = refl
  hash_entries-SameEntries (same_entry {l} {w} {es} sk sv rest) depth h =
      ap₂ (λ kh vh. hash_entries es depth (add_entry h kh vh)) (hash_one-SameValue sk depth)
        (hash_one-SameValue sv depth)
      ∙ hash_entries-SameEntries rest depth (add_entry h (hash_one l depth) (hash_one w depth))
  hash_entries-SameEntries (swapped {k} {l} {v} {w} {es}) depth h =
      ap (hash_entries es depth)
        (add_two h (hash_one k depth) (hash_one v depth) (hash_one l depth) (hash_one w depth))
  hash_entries-SameEntries (chained first second) depth h =
      hash_entries-SameEntries first depth h ∙ hash_entries-SameEntries second depth h

-- `lhash_table` gives the same hash, or fails, for two tables that are the same but for the order in
-- which the entries of the table and of the tables in it are visited.
pub lhash_table-SameEntries :
    {es fs : Entries} → SameEntries es fs → lhash_table (table es) ≡ lhash_table (table fs)
unfolding lhash_table
lhash_table-SameEntries same = ap (times 1) (hash_entries-SameEntries same 1 (some 0))
