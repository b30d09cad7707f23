-- ===== src/OidManager/Tests.antt =====
-- The ids behind a first table.
use database_hw.Prelude.{ℕ, ◌<◌, ◌≡◌, ◌≢◌, refl, [], ◌∷◌, arith}
use database_hw.Result.{ok}
use database_hw.OidManager.{
  Name, OidType, table, OidManager, entry_name, create_entry, get_entry_name, get_entry_oid,
}
use database_hw.OidManager.Entries.{IsValid, create_entry-IsValid}

abbrev empty_manager : OidManager
empty_manager = record { next_oid = 10000; name2oid = []; oid2name = [] }

empty_manager-IsValid : IsValid empty_manager
unfolding get_entry_oid
empty_manager-IsValid table name oid run = absurd (ground (arith, run))
empty_manager-IsValid OidType.database name oid run = absurd (ground (arith, run))
empty_manager-IsValid OidType.index name oid run = absurd (ground (arith, run))

abbrev people : Name
people = 112 ∷ 49 ∷ []

abbrev people_entry : Name
people_entry = 84 ∷ 65 ∷ 66 ∷ 76 ∷ 69 ∷ 46 ∷ people

create_entry-IsValid_example :
    (m' : OidManager) × (create_entry empty_manager table people ≡ ok (m', 10000))
    × IsValid m'
    × (get_entry_oid m' table people ≡ ok 10000)
    × (get_entry_name m' 10000 ≡ ok people)
    × ((type' : OidType) (name' entry' : Name)
        → entry_name type' name' ≡ ok entry'
        → entry' ≢ people_entry
        → get_entry_oid m' type' name' ≡ get_entry_oid empty_manager type' name')
    × ((oid : ℕ) → oid < 10000 → get_entry_name m' oid ≡ get_entry_name empty_manager oid)
create_entry-IsValid_example =
    create_entry-IsValid empty_manager table people people_entry empty_manager-IsValid (omega arith)
      refl
