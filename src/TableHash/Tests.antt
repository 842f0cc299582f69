-- ===== src/TableHash/Tests.antt =====
-- The hash at concrete tables.
use skynet_server.Common.{◌≡◌, refl, true, some}
use skynet_server.Common.{◌&&◌, leb}
use skynet_server.Common.Bytes.{codes}
use skynet_server.TableHash.{
  integer, boolean, string, table, Entries, no_more, entry, hash_one, hash_string, lhash_table,
}
use skynet_server.TableHash.Order.{swapped, lhash_table-SameEntries}
use skynet_server.TableHash.Depth.{is_some, all_supported, entries_height, lhash_table-fits}

-- { 1 = true, ab = { 2 = "x" } }, and the other way round.
abbrev one_two : Entries
one_two =
    entry (integer 1) (boolean true)
      (entry (string (codes "ab")) (table (entry (integer 2) (string (codes "x")) no_more)) no_more)

abbrev two_one : Entries
two_one =
    entry (string (codes "ab")) (table (entry (integer 2) (string (codes "x")) no_more))
      (entry (integer 1) (boolean true) no_more)

lhash_table-SameEntries_example : lhash_table (table one_two) ≡ lhash_table (table two_one)
lhash_table-SameEntries_example = lhash_table-SameEntries {es = one_two} {fs = two_one} swapped

lhash_table-fits_example :
    is_some (lhash_table (table one_two))
    ≡ (all_supported one_two && leb (entries_height one_two) 16)
lhash_table-fits_example = lhash_table-fits one_two

run-string : hash_one (string (codes "ab")) 1 ≡ some 3105
unfolding hash_one hash_string
run-string = refl
