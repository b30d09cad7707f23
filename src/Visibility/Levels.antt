-- ===== src/Visibility/Levels.antt =====
-- What each isolation level shows of a record.
use database_hw.Prelude.{ℕ, ◌≤◌, ◌<◌, ◌≡◌, ◌≢◌, ◌⊎◌, ◌↔◌, true, false, List, arith}
use database_hw.Header.{RecordHeader}
use database_hw.Types.{null_xid}
use database_hw.Visibility.{read_committed, repeatable_read, serializable, contains, can_get}

-- A record written by the very command that scans.
abbrev pub OwnCommand : RecordHeader → ℕ → ℕ → Type 0
OwnCommand h xid cid = (h.cid ≡ cid) × (h.xmin ≡ xid)

-- Inserted by this transaction or by one that has ended, and not deleted, or deleted by another
-- transaction that is still active.
abbrev pub VisibleCommitted : RecordHeader → ℕ → List ℕ → Type 0
VisibleCommitted h xid active =
    ((h.xmin ≡ xid) ⊎ (contains active h.xmin ≡ false))
    × ((h.xmax ≡ null_xid) ⊎ ((h.xmax ≢ xid) × (contains active h.xmax ≡ true)))

-- Inserted by this transaction or by one that had ended when it began, and not deleted, or deleted
-- by one that was active then or began later.
abbrev pub VisibleRepeatable : RecordHeader → ℕ → List ℕ → Type 0
VisibleRepeatable h xid snapshot =
    (h.xmin ≤ xid)
    × (contains snapshot h.xmin ≡ false)
    × ((contains snapshot h.xmax ≡ true) ⊎ (xid < h.xmax))

-- Under read committed a scan shows exactly the records that are not of its own command and whose
-- insertion, but not deletion, is its transaction's own or ended.
pub can_get-read_committed :
    (h : RecordHeader) (xid cid : ℕ) (active : List ℕ)
    → (can_get h xid cid read_committed active ≡ false)
      ↔ ((¬ OwnCommand h xid cid) × VisibleCommitted h xid active)
unfolding can_get
can_get-read_committed h xid cid active = ground arith

-- Under repeatable read, for a transaction that is not in its own snapshot, a scan shows exactly
-- the records that are not of its own command, whose inserter had ended in the snapshot and has no
-- later id, and whose deleter is in the snapshot or has a later id.
pub can_get-repeatable_read :
    (h : RecordHeader) (xid cid : ℕ) (snapshot : List ℕ)
    → contains snapshot xid ≡ false
    → (can_get h xid cid repeatable_read snapshot ≡ false)
      ↔ ((¬ OwnCommand h xid cid) × VisibleRepeatable h xid snapshot)
unfolding can_get
can_get-repeatable_read h xid cid snapshot s = ground arith

-- Serializable shows a transaction with a proper id just what read committed shows it.
pub can_get-serializable :
    (h : RecordHeader) (xid cid : ℕ) (active : List ℕ)
    → xid ≢ null_xid
    → can_get h xid cid serializable active ≡ can_get h xid cid read_committed active
unfolding can_get
can_get-serializable h xid cid active e = ground arith

-- Under repeatable read, for a transaction that is not in its own snapshot, a record that a scan
-- shows is still shown after a transaction that is in the snapshot, or has a later id, deletes it.
pub can_get-set_xmax :
    (h : RecordHeader) (xid cid deleter : ℕ) (snapshot : List ℕ)
    → contains snapshot xid ≡ false
    → (contains snapshot deleter ≡ true) ⊎ (xid < deleter)
    → can_get h xid cid repeatable_read snapshot ≡ false
    → can_get (record h { xmax = deleter }) xid cid repeatable_read snapshot ≡ false
unfolding can_get
can_get-set_xmax h xid cid deleter snapshot s d v = ground arith
