-- ===== src/Visibility/Tests.antt =====
-- Records that scans of src/table/table_scan.cpp meet, and the theorems at them.
use database_hw.Prelude.{◌≡◌, ◌≢◌, ◌<◌, ◌⊎◌, ◌↔◌, inr, refl, true, false, [], ◌∷◌, arith}
use database_hw.Types.{null_xid}
use database_hw.Header.{RecordHeader}
use database_hw.Visibility.{
  read_committed, repeatable_read, serializable, contains, can_get, can_get_read_committed,
  can_get_repeatable_read, can_get_serializable,
}
use database_hw.Visibility.Levels.{
  OwnCommand, VisibleCommitted, VisibleRepeatable, can_get-read_committed, can_get-repeatable_read,
  can_get-serializable, can_get-set_xmax,
}

-- Inserted by transaction 2, which has ended, and deleted by 7, which is active.
abbrev deleted_by_7 : RecordHeader
deleted_by_7 = record { deleted = true; xmin = 2; xmax = 7; cid = 1 }

abbrev live : RecordHeader
live = record { deleted = false; xmin = 2; xmax = null_xid; cid = 1 }

abbrev by_7 : RecordHeader
by_7 = record { deleted = false; xmin = 7; xmax = null_xid; cid = 1 }

runs :
    (can_get deleted_by_7 5 1 read_committed (5 ∷ 7 ∷ []) ≡ false)
    × (can_get deleted_by_7 5 1 read_committed (5 ∷ []) ≡ true)
    × (can_get deleted_by_7 5 1 repeatable_read (3 ∷ []) ≡ false)
    × (can_get by_7 5 1 repeatable_read (3 ∷ []) ≡ true)
unfolding can_get can_get_read_committed can_get_repeatable_read can_get_serializable
runs = (refl, refl, refl, refl)

can_get-read_committed_example :
    (can_get deleted_by_7 5 1 read_committed (5 ∷ 7 ∷ []) ≡ false)
    ↔ ((¬ OwnCommand deleted_by_7 5 1) × VisibleCommitted deleted_by_7 5 (5 ∷ 7 ∷ []))
can_get-read_committed_example = can_get-read_committed deleted_by_7 5 1 (5 ∷ 7 ∷ [])

can_get-repeatable_read_example :
    (can_get deleted_by_7 5 1 repeatable_read (3 ∷ []) ≡ false)
    ↔ ((¬ OwnCommand deleted_by_7 5 1) × VisibleRepeatable deleted_by_7 5 (3 ∷ []))
can_get-repeatable_read_example = can_get-repeatable_read deleted_by_7 5 1 (3 ∷ []) refl

five_proper : 5 ≢ null_xid
five_proper = omega arith

can_get-serializable_example :
    can_get deleted_by_7 5 1 serializable (5 ∷ 7 ∷ [])
    ≡ can_get deleted_by_7 5 1 read_committed (5 ∷ 7 ∷ [])
can_get-serializable_example = can_get-serializable deleted_by_7 5 1 (5 ∷ 7 ∷ []) five_proper

live_visible : can_get live 5 1 repeatable_read (3 ∷ []) ≡ false
unfolding can_get can_get_repeatable_read
live_visible = refl

later : (contains (3 ∷ []) 7 ≡ true) ⊎ (5 < 7)
later = inr (omega arith)

can_get-set_xmax_example : can_get (record live { xmax = 7 }) 5 1 repeatable_read (3 ∷ []) ≡ false
can_get-set_xmax_example = can_get-set_xmax live 5 1 7 (3 ∷ []) refl later live_visible
