-- ===== src/OidManager/Entries.antt =====
-- A new entry is found by its name and by its oid, and the others stay.
use database_hw.Prelude.{
  ℕ, ◌+◌, ◌%◌, ◌^◌, ◌<◌, ◌≡◌, ◌≢◌, refl, sym, ap, ◌∙◌, inl, inr, Bool, true, false, some, nat_eq,
  ◌==◌, find, find-insert, eq_nat, Bool-cases, if◌then◌else◌, arith,
}
use database_hw.Result.{Result, ok, ◌>>=◌}
use database_hw.OidManager.{
  Name, eq_name, name_eq_iff, OidType, table, database, index, OidManager, entry_name, create_entry,
  get_entry_name, get_entry_oid, found_oid, put_entry,
}

-- The oid of an entry is one that was given out, and has the entry's name.
abbrev pub IsValid : OidManager → Type 0
IsValid m =
    (type : OidType) (name : Name) (oid : ℕ)
    → get_entry_oid m type name ≡ ok oid
    → (get_entry_name m oid ≡ ok name) × (oid < m.next_oid)

entry_name-injective :
    (type type' : OidType) (name name' entry : Name)
    → entry_name type name ≡ ok entry
    → entry_name type' name' ≡ ok entry
    → name ≡ name'
entry_name-injective table table name name' entry e e' = ground (arith, e, e')
entry_name-injective database database name name' entry e e' = ground (arith, e, e')
entry_name-injective table database name name' entry e e' = absurd (ground (arith, e, e'))
entry_name-injective database table name name' entry e e' = absurd (ground (arith, e, e'))
entry_name-injective index type' name name' entry e e' = absurd (ground (arith, e))
entry_name-injective table index name name' entry e e' = absurd (ground (arith, e'))
entry_name-injective database index name name' entry e e' = absurd (ground (arith, e'))

module _ (m : OidManager) (type : OidType) (name entry : Name)
    (e : entry_name type name ≡ ok entry) where
  abbrev created : OidManager
  created = put_entry (record m { next_oid = (m.next_oid + 1) % 2 ^ 32 }) name m.next_oid entry

  create_entry-runs : create_entry m type name ≡ ok (created, m.next_oid)
  unfolding create_entry
  create_entry-runs =
      ap
        (λ (x : Result Name). x >>= λ (entry : Name). ok (
          put_entry (record m { next_oid = (m.next_oid + 1) % 2 ^ 32 }) name m.next_oid entry,
          m.next_oid,
        ))
        e

  get_entry_oid-created :
      (type' : OidType) (name' entry' : Name)
      → entry_name type' name' ≡ ok entry'
      → get_entry_oid created type' name'
        ≡ (if entry == entry' then ok m.next_oid else get_entry_oid m type' name')
  unfolding get_entry_oid
  get_entry_oid-created type' name' entry' e' =
      ap (λ (x : Result Name). x >>= λ (k : Name). found_oid (find k created.name2oid)) e'
      ∙ ap found_oid (find-insert entry entry' m.next_oid m.name2oid)
      ∙ pick (entry == entry')
      ∙ ap (λ (x : Result ℕ). if entry == entry' then ok m.next_oid else x)
          (sym (ap (λ (x : Result Name). x >>= λ (k : Name). found_oid (find k m.name2oid)) e'))
    where
      pick :
          (b : Bool)
          → found_oid (if b then some m.next_oid else find entry' m.name2oid)
            ≡ (if b then ok m.next_oid else found_oid (find entry' m.name2oid))
      pick true = refl
      pick false = refl

  get_entry_name-created :
      (oid : ℕ)
      → get_entry_name created oid
        ≡ (if nat_eq m.next_oid oid then ok name else get_entry_name m oid)
  unfolding get_entry_name
  get_entry_name-created oid = ground (arith, find-insert m.next_oid oid name m.oid2name)

-- An entry that is found has a prefix.
entry_name-found :
    (m : OidManager) (type : OidType) (name : Name) (oid : ℕ)
    → get_entry_oid m type name ≡ ok oid
    → (entry : Name) × (entry_name type name ≡ ok entry)
unfolding get_entry_oid
entry_name-found m table name oid run = (_, refl)
entry_name-found m database name oid run = (_, refl)
entry_name-found m index name oid run = absurd (ground (arith, run))

-- With an oid to spare, `CreateEntry` of a table or a database gives out the next oid: the name
-- finds the oid and the oid the name, every other entry is found as before, every oid given out
-- before has its name still, and what is found goes on to be consistent.
pub create_entry-IsValid :
    (m : OidManager) (type : OidType) (name entry : Name)
    → IsValid m
    → m.next_oid + 1 < 2 ^ 32
    → entry_name type name ≡ ok entry
    → (m' : OidManager) × (create_entry m type name ≡ ok (m', m.next_oid))
      × IsValid m'
      × (get_entry_oid m' type name ≡ ok m.next_oid)
      × (get_entry_name m' m.next_oid ≡ ok name)
      × ((type' : OidType) (name' entry' : Name)
          → entry_name type' name' ≡ ok entry'
          → entry' ≢ entry
          → get_entry_oid m' type' name' ≡ get_entry_oid m type' name')
      × ((oid : ℕ) → oid < m.next_oid → get_entry_name m' oid ≡ get_entry_name m oid)
create_entry-IsValid m type name entry v few e =
    let m' = created m type name entry e in
    (
      m',
      create_entry-runs m type name entry e,
      λ type' name' oid run.
          let (entry', e') = entry_name-found m' type' name' oid run in
          let here = get_entry_oid-created m type name entry e type' name' entry' e' in
          elim (Bool-cases (entry == entry')) [
            | inl same ↦
                let k : entry ≡ entry' = (name_eq_iff entry entry').0 same in
                let n : name ≡ name' =
                  entry_name-injective type type' name name' entry' (e ∙ ap (λ (x : Name). ok x) k)
                    e' in
                let oid_is : m.next_oid ≡ oid = ground (arith, here, run, same) in
                (
                  get_entry_name-created m type name entry e oid ∙ ground (arith, oid_is, n),
                  omega (arith, oid_is),
                )
            | inr other ↦
                let before = v type' name' oid (ground (arith, here, run, other)) in
                (
                  get_entry_name-created m type name entry e oid
                      ∙ ground (arith, before.0, before.1),
                  omega (arith, before.1),
                )
          ],
      get_entry_oid-created m type name entry e type name entry e
          ∙ ground (arith, name_eq_iff entry entry),
      get_entry_name-created m type name entry e m.next_oid ∙ ground arith,
      λ type' name' entry' e' ne.
          get_entry_oid-created m type name entry e type' name' entry' e'
          ∙ ground (arith, name_eq_iff entry entry', ne),
      λ oid h. get_entry_name-created m type name entry e oid ∙ ground (arith, h),
    )
