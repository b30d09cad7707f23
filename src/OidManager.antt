-- ===== src/OidManager.antt =====
-- src/catalog/oid_manager.{h,cpp}: the object ids of tables and databases, and their names, which are
-- lists of bytes.
pub mod Entries
mod Tests
use database_hw.Prelude.{
  ℕ, ◌+◌, ◌%◌, ◌^◌, ◌≡◌, ◌↔◌, ap, Bool, true, false, ◌&&◌, Option, none, some, List, [], ◌∷◌, ◌++◌,
  nat_eq, nat_eq_iff, Key, find, insert, erase, eq_nat, if◌then◌else◌, arith,
}
use database_hw.Result.{Result, ok, throw, ◌>>=◌, entry_not_found, object_unsupported}

abbrev pub Name : Type 0
Name = List ℕ

abbrev pub name_eq : Name → Name → Bool
name_eq [] [] = true
name_eq [] (b ∷ bs) = false
name_eq (a ∷ rest) [] = false
name_eq (a ∷ rest) (b ∷ bs) = nat_eq a b && name_eq rest bs

pub name_eq_iff : (a b : Name) → (name_eq a b ≡ true) ↔ (a ≡ b)
name_eq_iff [] [] = ground arith
name_eq_iff [] (b ∷ bs) = ground arith
name_eq_iff (a ∷ rest) [] = ground arith
name_eq_iff (a ∷ rest) (b ∷ bs) = ground (arith, name_eq_iff rest bs)

instance abbrev pub eq_name : Key Name
eq_name = record { same_key = name_eq; same_key_iff = name_eq_iff }

pub data OidType : Type 0 where
  database table index : OidType

pub record OidManager : Type 0 where
  pub next_oid : ℕ
  pub name2oid : List (Name × ℕ)
  pub oid2name : List (ℕ × Name)

-- "TABLE." and "DATABASE.".
abbrev pub get_entry_prefix : OidType → Result Name
get_entry_prefix table = ok (84 ∷ 65 ∷ 66 ∷ 76 ∷ 69 ∷ 46 ∷ [])
get_entry_prefix database = ok (68 ∷ 65 ∷ 84 ∷ 65 ∷ 66 ∷ 65 ∷ 83 ∷ 69 ∷ 46 ∷ [])
get_entry_prefix index = throw object_unsupported

abbrev pub entry_name : OidType → Name → Result Name
entry_name type name = get_entry_prefix type >>= λ (prefix : Name). ok (prefix ++ name)

-- The two maps with a new pair.
abbrev pub put_entry : OidManager → Name → ℕ → Name → OidManager
put_entry m name oid entry = record m {
  name2oid = insert entry oid m.name2oid;
  oid2name = insert oid name m.oid2name;
}

unfoldable pub create_entry : OidManager → OidType → Name → Result (OidManager × ℕ)
create_entry m type name = entry_name type name >>= λ (entry : Name). ok (
  put_entry (record m { next_oid = (m.next_oid + 1) % 2 ^ 32 }) name m.next_oid entry,
  m.next_oid,
)

unfoldable pub set_entry_oid : OidManager → OidType → Name → ℕ → Result OidManager
set_entry_oid m type name oid =
    entry_name type name >>= λ (entry : Name). ok (put_entry m name oid entry)

unfoldable pub get_entry_name : OidManager → ℕ → Result Name
get_entry_name m oid = elim (find oid m.oid2name) [ none ↦ throw entry_not_found | some n ↦ ok n ]

abbrev pub found_oid : Option ℕ → Result ℕ
found_oid none = throw entry_not_found
found_oid (some oid) = ok oid

unfoldable pub get_entry_oid : OidManager → OidType → Name → Result ℕ
get_entry_oid m type name =
    entry_name type name >>= λ (entry : Name). found_oid (find entry m.name2oid)

unfoldable pub drop_entry : OidManager → OidType → Name → Result (OidManager × ℕ)
drop_entry m type name = get_entry_oid m type name >>= λ (oid : ℕ).
    entry_name type name >>= λ (entry : Name).
    ok (record m { name2oid = erase entry m.name2oid; oid2name = erase oid m.oid2name }, oid)

abbrev pub is_some : {A : Type 0} → Option A → Bool
is_some none = false
is_some (some a) = true

unfoldable pub entry_exists : OidManager → OidType → Name → Result Bool
entry_exists m type name =
    entry_name type name >>= λ (entry : Name). ok (is_some (find entry m.name2oid))

unfoldable pub oid_exists : OidManager → ℕ → Bool
oid_exists m oid = is_some (find oid m.oid2name)
