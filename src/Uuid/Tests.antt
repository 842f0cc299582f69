-- ===== src/Uuid/Tests.antt =====
-- The numbers at concrete inputs.
use Prim.Native.Nat.{min}
use skynet_server.Common.{◌-◌, ◌≡◌, refl, ◌∷◌, [], some}
use skynet_server.Uuid.{luaopen_uuid_core, calls, sids, beyond_field, lsid, lsid-sids}

two_calls : calls 2 luaopen_uuid_core ≡ some 1 ∷ some 2 ∷ []
unfolding calls lsid
two_calls = refl

lsid-sids_example :
    (calls 3 luaopen_uuid_core ≡ sids 3 1)
    × (beyond_field (calls 3 luaopen_uuid_core) ≡ min 3 0xffff - 0x7fff)
lsid-sids_example = lsid-sids 3
