-- ===== src/TypeUtil/Laws.antt =====
-- Compatibility of types.
use database_hw.Prelude.{◌≡◌, ◌↔◌, true, arith}
use database_hw.TypeUtil.{DbType, type_eq, type_compatible}

pub type_eq_iff : (a b : DbType) → (type_eq a b ≡ true) ↔ (a ≡ b)
type_eq_iff a b = ground arith

-- Compatibility of types is an equivalence: it is reflexive, symmetric and transitive.
pub type_compatible_equivalence :
    (a b c : DbType)
    → (type_compatible a a ≡ true)
      × (type_compatible a b ≡ type_compatible b a)
      × (type_compatible a b ≡ true → type_compatible b c ≡ true → type_compatible a c ≡ true)
unfolding type_compatible
type_compatible_equivalence a b c = ground arith
