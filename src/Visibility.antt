-- ===== src/Visibility.antt =====
-- src/table/table_scan.cpp, `CanGet`: whether a scan passes a record over. The source's name says
-- the opposite of what it answers: `true` skips the record.
pub mod Levels
mod Tests
use database_hw.Prelude.{
  ℕ, Bool, true, false, not, ◌&&◌, ◌||◌, List, [], ◌∷◌, nat_eq, leb, ltb, if◌then◌else◌,
}
use database_hw.Header.{RecordHeader}
use database_hw.Types.{null_xid}

pub data IsolationLevel : Type 0 where
  read_committed repeatable_read serializable : IsolationLevel

-- `active_xids.find(xid) != active_xids.end()`.
abbrev pub contains : List ℕ → ℕ → Bool
contains [] xid = false
contains (a ∷ rest) xid = nat_eq a xid || contains rest xid

abbrev pub is_own_command : RecordHeader → ℕ → ℕ → Bool
is_own_command h xid cid = nat_eq h.cid cid && nat_eq h.xmin xid

unfoldable pub can_get_read_committed : RecordHeader → ℕ → ℕ → List ℕ → Bool
can_get_read_committed h xid cid active =
    let in_active = contains active h.xmin in
    let deleter_active = contains active h.xmax in
    if is_own_command h xid cid
    then true
    else if in_active && not (nat_eq h.xmin xid)
    then true
    else if in_active && nat_eq h.xmin xid
    then (if nat_eq xid h.xmax && not (nat_eq h.xmax null_xid)
        then true
        else if not (nat_eq h.xmax null_xid) && not deleter_active
        then true
        else false)
    else if not in_active
    then (if nat_eq h.xmax xid && not (nat_eq h.xmax null_xid)
        then true
        else if not (nat_eq h.xmax null_xid) && not deleter_active
        then true
        else false)
    else false

unfoldable pub can_get_repeatable_read : RecordHeader → ℕ → ℕ → List ℕ → Bool
can_get_repeatable_read h xid cid active =
    let in_active = contains active h.xmin in
    let deleter_active = contains active h.xmax in
    if is_own_command h xid cid
    then true
    else if in_active && not (nat_eq h.xmin xid)
    then true
    else if in_active && nat_eq h.xmin xid
    then (if nat_eq h.xmax xid && not (nat_eq h.xmax null_xid) then true else false)
    else if not in_active && leb h.xmin xid
    then (if nat_eq h.xmax xid && not (nat_eq h.xmax null_xid)
        then true
        else if deleter_active || ltb xid h.xmax
        then false
        else true)
    else if not in_active && ltb xid h.xmin
    then true
    else false

unfoldable pub can_get_serializable : RecordHeader → ℕ → ℕ → List ℕ → Bool
can_get_serializable h xid cid active =
    let deleter_active = contains active h.xmax in
    (not (nat_eq h.xmin xid) && contains active h.xmin)
    || (nat_eq h.xmax xid
        || is_own_command h xid cid
        || (not (nat_eq h.xmax null_xid) && not deleter_active))

unfoldable pub can_get : RecordHeader → ℕ → ℕ → IsolationLevel → List ℕ → Bool
unfolding can_get_read_committed can_get_repeatable_read can_get_serializable
can_get h xid cid read_committed active = can_get_read_committed h xid cid active
can_get h xid cid repeatable_read active = can_get_repeatable_read h xid cid active
can_get h xid cid serializable active = can_get_serializable h xid cid active
