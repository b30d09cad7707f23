-- ===== src/Lock/Modes.antt =====
-- The lock modes as a lattice.
use database_hw.Prelude.{◌≡◌, ◌&&◌, arith}
use database_hw.Lock.{LockType, s, six, compatible, upgrade}

-- Compatibility does not depend on who asked first.
pub compatible_comm : (a b : LockType) → compatible a b ≡ compatible b a
unfolding compatible
compatible_comm a b = ground arith

-- The pair on which `upgrade` forgets what was asked for.
abbrev pub Lossy : LockType → LockType → Type 0
Lossy a b = (a ≡ s) × (b ≡ six)

-- An upgraded lock tolerates exactly the modes that both the old lock and the request tolerate,
-- but for a request of SIX by a holder of S.
pub compatible-upgrade :
    (a b c : LockType)
    → ¬ Lossy a b
    → compatible c (upgrade a b) ≡ (compatible c a && compatible c b)
unfolding compatible upgrade
compatible-upgrade a b c h = ground arith

pub compatible-upgrade_lossy :
    (a b : LockType)
    → Lossy a b
    → ¬ ((c : LockType) → compatible c (upgrade a b) ≡ (compatible c a && compatible c b))
unfolding compatible upgrade
compatible-upgrade_lossy a b h all = ground (arith, all s)
