-- ===== src/Lock/Tests.antt =====
-- Runs of src/transaction/lock_manager.cpp: a reader and a writer on one table, and the theorems
-- at these lock maps.
use database_hw.Prelude.{◌≡◌, ◌≢◌, ◌↔◌, Has, arith, refl, true, false, []}
use database_hw.Types.{Rid}
use database_hw.Lock.{
  Lock, LockMap, is, ix, six, s, x, locks, is_table_lock, is_row_lock, compatible, upgrade,
  upgrade_table, upgrade_row, claim_table, claim_row, lock_table, lock_row, release_locks,
}
use database_hw.Lock.Safety.{IsSafe, Releases}
use database_hw.Lock.Tables.{lock_table-IsSafe_iff, release_locks-lock_table}
use database_hw.Lock.Rows.{lock_row-IsSafe_iff}
use database_hw.Lock.Rows.Covers.{Covers, lock_row-Covers}

empty-IsSafe : IsSafe []
empty-IsSafe = record { distinct = tt; single = λ xid. tt; admit = λ a b ne l k hl hk. absurd hl }

-- Transaction 1 reads table 5.
abbrev reading : LockMap
reading = (lock_table 1 s 5 []).0

reading_granted : (lock_table 1 s 5 []).1 ≡ true
unfolding lock_table claim_table upgrade_table
reading_granted = refl

reading-IsSafe : IsSafe reading
reading-IsSafe = (lock_table-IsSafe_iff 1 s 5 [] empty-IsSafe).0 reading_granted

abbrev rid : Rid
rid = record { page_id = 0; slot_id = 3 }

runs :
    ((lock_table 2 is 5 reading).1 ≡ true)
    × ((lock_table 2 x 5 reading).1 ≡ false)
    × ((lock_row 2 s 5 rid reading).1 ≡ true)
    × ((lock_row 2 x 5 rid reading).1 ≡ false)
    × ((lock_row 1 x 5 rid reading).1 ≡ true)
unfolding compatible upgrade upgrade_table upgrade_row claim_table claim_row lock_table lock_row
runs = (refl, refl, refl, refl, refl)

lock_table-IsSafe_iff_example :
    ((lock_table 2 x 5 reading).1 ≡ true) ↔ IsSafe (lock_table 2 x 5 reading).0
lock_table-IsSafe_iff_example = lock_table-IsSafe_iff 2 x 5 reading reading-IsSafe

lock_row-IsSafe_iff_example :
    ((lock_row 2 x 5 rid reading).1 ≡ true) ↔ IsSafe (lock_row 2 x 5 rid reading).0
lock_row-IsSafe_iff_example = lock_row-IsSafe_iff 2 x 5 rid reading reading-IsSafe

release_locks-lock_table_example : Releases 2 reading (release_locks 2 (lock_table 2 x 5 reading).0)
release_locks-lock_table_example = release_locks-lock_table 2 x 5 reading reading-IsSafe

exclusive : x ≢ six
exclusive e = ground (arith, e)

-- A writer of a row of the table that it reads holds S and IX on the table: SIX.
lock_row-Covers_example :
    ((k : Lock) × Has k (locks 1 (lock_row 1 x 5 rid reading).0)
      × (is_table_lock 5 k ≡ true)
      × Covers k.lock_type ix)
    × ((k : Lock) × Has k (locks 1 (lock_row 1 x 5 rid reading).0)
        × (is_row_lock 5 rid k ≡ true)
        × Covers k.lock_type x)
    × ((l : Lock)
        → Has l (locks 1 reading)
        → (k : Lock) × Has k (locks 1 (lock_row 1 x 5 rid reading).0)
          × (k ≡ record l { lock_type = k.lock_type })
          × Covers k.lock_type l.lock_type)
lock_row-Covers_example = lock_row-Covers 1 x 5 rid reading exclusive
