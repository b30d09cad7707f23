-- ===== src/Lock.antt =====
-- src/transaction/lock_manager.{h,cpp}: multi-granularity locks on tables and rows. The lock map
-- goes from a transaction to its locks, in the order in which it asked for them. The deadlock type
-- is stored by the source and read by nothing.
pub mod Modes
pub mod Claims
pub mod Safety
pub mod Tables
pub mod Rows
mod Tests
use database_hw.Prelude.{
  ℕ, Bool, true, false, not, ◌&&◌, ◌||◌, Option, none, some, List, [], ◌∷◌, ◌++◌, nat_eq, ◌==◌,
  if◌then◌else◌, find, insert, all, eq_nat,
}
use database_hw.Types.{Rid, rid_eq}

-- The lock modes of multi-granularity locking.
pub data LockType : Type 0 where
  is ix s six x : LockType

pub data LockGranularity : Type 0 where
  table row : LockGranularity

-- A table lock leaves its `rid` unset.
pub record Lock : Type 0 where
  pub lock_granularity : LockGranularity
  pub lock_type : LockType
  pub oid : ℕ
  pub rid : Option Rid

abbrev pub LockMap : Type 0
LockMap = List (ℕ × List Lock)

-- Whether a lock of the first mode, held by another transaction, allows one of the second.
unfoldable pub compatible : LockType → LockType → Bool
compatible s s = true
compatible s is = true
compatible s _ = false
compatible x _ = false
compatible is x = false
compatible is _ = true
compatible ix is = true
compatible ix ix = true
compatible ix _ = false
compatible six is = true
compatible six _ = false

-- The mode that a transaction holds after it asks for the second mode beside the first.
unfoldable pub upgrade : LockType → LockType → LockType
upgrade s x = x
upgrade s ix = six
upgrade s _ = s
upgrade x _ = x
upgrade is other = other
upgrade ix s = six
upgrade ix x = x
upgrade ix six = six
upgrade ix _ = ix
upgrade six x = x
upgrade six _ = six

-- A row lock asks for an intention lock on its table.
abbrev pub intention : LockType → LockType
intention s = is
intention _ = ix

abbrev pub is_table_lock : ℕ → Lock → Bool
is_table_lock oid l = elim l.lock_granularity [ table ↦ nat_eq oid l.oid | row ↦ false ]

abbrev pub rid_is : Option Rid → Rid → Bool
rid_is none r = false
rid_is (some q) r = rid_eq q r

abbrev pub is_row_lock : ℕ → Rid → Lock → Bool
is_row_lock oid r l = elim l.lock_granularity [
  | table ↦ false
  | row ↦ nat_eq l.oid oid && rid_is l.rid r
]

abbrev pub locks : ℕ → LockMap → List Lock
locks xid m = elim (find xid m) [ none ↦ [] | some ls ↦ ls ]

-- The first loop of `LockTable`: every lock of the transaction on the table is upgraded, and the
-- mode of the last one is noted.
unfoldable pub upgrade_table :
    ℕ → LockType → List Lock → Option LockType → List Lock × Option LockType
upgrade_table oid t [] now = ([], now)
upgrade_table oid t (l ∷ ls) now =
    let hit = is_table_lock oid l in
    let mode = upgrade l.lock_type t in
    let rest = upgrade_table oid t ls (if hit then some mode else now) in
    ((if hit then record l { lock_type = mode } else l) ∷ rest.0, rest.1)

abbrev pub new_table_lock : ℕ → LockType → Lock
new_table_lock oid t = record { lock_granularity = table; lock_type = t; oid = oid; rid = none }

-- A mode that no lock was found for calls for a `push_back` of a new lock.
abbrev pub settle : Option LockType → Lock → List Lock → List Lock × LockType
settle none new ls = (ls ++ (new ∷ []), new.lock_type)
settle (some now) new ls = (ls, now)

-- The transaction's locks with the table lock in place, and its mode.
unfoldable pub claim_table : ℕ → LockType → List Lock → List Lock × LockType
claim_table oid t ls = let r = upgrade_table oid t ls none in settle r.1 (new_table_lock oid t) r.0

-- The last loops of both operations: no lock of another transaction fails the test.
abbrev pub others_pass : (Lock → Bool) → ℕ → LockMap → Bool
others_pass p xid [] = true
others_pass p xid ((j, ls) ∷ m) = (j == xid || all p ls) && others_pass p xid m

abbrev pub allows_table : ℕ → LockType → Lock → Bool
allows_table oid now l = if is_table_lock oid l then compatible l.lock_type now else true

-- `LockTable`: the lock map that is left, and whether the lock was granted.
unfoldable pub lock_table : ℕ → LockType → ℕ → LockMap → LockMap × Bool
lock_table xid t oid m =
    let claim = claim_table oid t (locks xid m) in
    let m' = insert xid claim.0 m in (m', others_pass (allows_table oid claim.1) xid m')

-- What the first loop of `LockRow` computes: the locks, the table's mode and the row's mode.
pub record RowClaim : Type 0 where
  pub held : List Lock
  pub table_now : Option LockType
  pub row_now : Option LockType

-- The first loop of `LockRow`: table locks get the intention, locks on the row get the mode.
unfoldable pub upgrade_row :
    ℕ → Rid → LockType → List Lock → Option LockType → Option LockType → RowClaim
upgrade_row oid r t [] tnow rnow = record { held = []; table_now = tnow; row_now = rnow }
upgrade_row oid r t (l ∷ ls) tnow rnow =
    let on_table = is_table_lock oid l in
    let on_row = is_row_lock oid r l in
    let mode =
      if on_table
      then upgrade l.lock_type (intention t)
      else if on_row
      then upgrade l.lock_type t
      else l.lock_type in
    let rest =
      upgrade_row oid r t ls (if on_table then some mode else tnow)
        (if on_table then rnow else if on_row then some mode else rnow) in
    record rest { held = record l { lock_type = mode } ∷ rest.held }

abbrev pub new_row_lock : ℕ → Rid → LockType → Lock
new_row_lock oid r t = record { lock_granularity = row; lock_type = t; oid = oid; rid = some r }

-- The locks after the two `push_back`s, the table's mode and the row's mode.
unfoldable pub claim_row : ℕ → Rid → LockType → List Lock → List Lock × LockType × LockType
claim_row oid r t ls =
    let c = upgrade_row oid r t ls none none in
    let with_row = settle c.row_now (new_row_lock oid r t) c.held in
    let both = settle c.table_now (new_table_lock oid (intention t)) with_row.0 in
    (both.0, both.1, with_row.1)

abbrev pub allows_row : ℕ → Rid → LockType → LockType → Lock → Bool
allows_row oid r tnow rnow l =
    if is_table_lock oid l
    then compatible l.lock_type tnow
    else if is_row_lock oid r l
    then compatible l.lock_type rnow
    else true

-- `LockRow`.
unfoldable pub lock_row : ℕ → LockType → ℕ → Rid → LockMap → LockMap × Bool
lock_row xid t oid r m =
    let claim = claim_row oid r t (locks xid m) in
    let m' = insert xid claim.0 m in (m', others_pass (allows_row oid r claim.1 claim.2) xid m')

-- `ReleaseLocks`: the entry stays, with no locks.
unfoldable pub release_locks : ℕ → LockMap → LockMap
release_locks xid m = insert xid [] m
