-- ===== src/Log/Manager.antt =====
-- src/log/log_manager.cpp: the log records in the buffer and in the file, and the tables of active
-- transactions and of dirty pages. The files `next_lsn` and `master_record` are the numbers in them.
pub mod History
pub mod Flush
pub mod Valid
pub mod Append
pub mod Calls
pub mod Tables
pub mod Steps
pub mod Commit
pub mod Room
mod Tests
use database_hw.Prelude.{
  ℕ, ◌+◌, ◌-◌, ◌%◌, ◌^◌, List, [], ◌∷◌, ◌++◌, Bool, true, false, not, ◌&&◌, ◌||◌, Option, none,
  some, nat_eq, ltb, leb, find, insert, erase, take, eq_nat, if◌then◌else◌,
}
use database_hw.Types.{TablePageid, eq_table_pageid, null_xid, null_lsn, null_page_id}
use database_hw.Result.{Result, ok, throw, xid_not_found, xid_exists, ◌>>=◌}
use database_hw.Bytes.{Memory, read}
use database_hw.Log.Record.{
  ActiveTable, DirtyTable, Body, begin, commit, rollback, begin_checkpoint, insertion, deletion,
  new_page, end_checkpoint, LogRecord, get_size, serialize_to,
}
use database_hw.Log.File.{LogFile, write_log}

pub record LogManager : Type 0 where
  pub att : ActiveTable
  pub dpt : DirtyTable
  pub next_lsn : ℕ
  pub flushed_lsn : ℕ
  pub log_buffer : List LogRecord
  pub disk : LogFile
  pub next_lsn_file : Option ℕ
  pub master_record : Option ℕ

abbrev pub first_lsn : ℕ
first_lsn = 0

abbrev pub ddl_xid : ℕ
ddl_xid = 0

-- The constructor: nothing is active, dirty or buffered.
abbrev pub new_log_manager : LogFile → Option ℕ → Option ℕ → ℕ → LogManager
new_log_manager disk next_lsn_file master_record next_lsn = record {
  att = [];
  dpt = [];
  next_lsn = next_lsn;
  flushed_lsn = (next_lsn + 2 ^ 64 - 1) % 2 ^ 64;
  log_buffer = [];
  disk = disk;
  next_lsn_file = next_lsn_file;
  master_record = master_record;
}

abbrev pub clear : LogManager → LogManager
clear s = record s { log_buffer = [] }

-- The constructors of the records, before their lsn is set.
abbrev pub new_log : Body → (xid prev_lsn : ℕ) → LogRecord
new_log body xid prev_lsn = record { lsn = null_lsn; xid = xid; prev_lsn = prev_lsn; body = body }

-- The step `if (dpt_.find(…) == dpt_.end()) dpt_[…] = lsn`.
abbrev pub mark_dirty : TablePageid → ℕ → DirtyTable → DirtyTable
mark_dirty page lsn dpt = elim (find page dpt) [ none ↦ insert page lsn dpt | some old ↦ dpt ]

abbrev pub page_of : (oid page_id : ℕ) → TablePageid
page_of oid page_id = record { table_oid = oid; page_id = page_id }

abbrev pub set_dirty : LogManager → (oid page_id lsn : ℕ) → LogManager
set_dirty s oid page_id lsn = record s { dpt = mark_dirty (page_of oid page_id) lsn s.dpt }

-- What every append does: the record takes the next lsn and goes to the end of the buffer.
unfoldable pub add_log : LogManager → LogRecord → LogManager
add_log s r = record s {
  next_lsn = (s.next_lsn + get_size r) % 2 ^ 64;
  log_buffer = s.log_buffer ++ record r { lsn = s.next_lsn } ∷ [];
}

-- The lookup of a transaction's last record, which must be there.
unfoldable pub with_last {ℓ} : {A : Type ℓ} → LogManager → ℕ → (ℕ → A) → Result A
with_last s xid f = elim (find xid s.att) [ none ↦ throw xid_not_found | some prev ↦ ok (f prev) ]

unfoldable pub append_insert_log :
    LogManager → (xid oid page_id slot_id offset size : ℕ) → List ℕ → Result (LogManager × ℕ)
append_insert_log s xid oid page_id slot_id offset size new_record = with_last s xid λ prev.
    let body = insertion oid page_id slot_id offset size (take size new_record) in
    let s1 = add_log s (new_log body xid prev) in
    let s2 = record s1 { att = insert xid s.next_lsn s1.att } in
    (set_dirty s2 oid page_id s.next_lsn, s.next_lsn)

unfoldable pub append_delete_log :
    LogManager → (xid oid page_id slot_id : ℕ) → Result (LogManager × ℕ)
append_delete_log s xid oid page_id slot_id = with_last s xid λ prev.
    let s1 = add_log s (new_log (deletion oid page_id slot_id) xid prev) in
    let s2 = record s1 { att = insert xid s.next_lsn s1.att } in
    (set_dirty s2 oid page_id s.next_lsn, s.next_lsn)

-- The steps behind the lookup of the transaction, which DDL does not need.
abbrev pub add_new_page : LogManager → (xid prev_lsn oid prev_page_id page_id : ℕ) → LogManager
add_new_page s xid prev_lsn oid prev_page_id page_id =
    let s1 = add_log s (new_log (new_page oid prev_page_id page_id) xid prev_lsn) in
    let s2 = record s1 {
      att = if nat_eq xid ddl_xid then s1.att else insert xid s.next_lsn s1.att;
    } in
    let s3 = set_dirty s2 oid page_id s.next_lsn in
    if nat_eq prev_page_id null_page_id then s3 else set_dirty s3 oid prev_page_id s.next_lsn

unfoldable pub append_new_page_log :
    LogManager → (xid oid prev_page_id page_id : ℕ) → Result (LogManager × ℕ)
append_new_page_log s xid oid prev_page_id page_id =
    if nat_eq xid ddl_xid
    then ok (add_new_page s xid null_xid oid prev_page_id page_id, s.next_lsn)
    else with_last s xid λ prev. (add_new_page s xid prev oid prev_page_id page_id, s.next_lsn)

unfoldable pub append_begin_log : LogManager → ℕ → Result (LogManager × ℕ)
append_begin_log s xid = elim (find xid s.att) [
  | some old ↦ throw xid_exists
  | none ↦
      let s1 = add_log s (new_log begin xid null_lsn) in
      ok (record s1 { att = insert xid s.next_lsn s1.att }, s.next_lsn)
]

-- `SerializeTo` of a new array, and `WriteLog` of the array.
abbrev pub write_record : LogFile → LogRecord → LogFile
write_record disk r = write_log disk r.lsn (read (serialize_to r (λ i. 0) 0).0 0 (get_size r))

-- The loop of `Flush`: the file, the greatest lsn and its record's size, and what stays.
pub record FlushRun : Type 0 where
  pub file : LogFile
  pub max_lsn : ℕ
  pub max_log_size : ℕ
  pub kept : List LogRecord

abbrev pub stays : ℕ → LogRecord → Bool
stays lsn r = not (nat_eq lsn null_lsn) && ltb lsn r.lsn

abbrev pub flush_one : FlushRun → LogRecord → FlushRun
flush_one run r =
    let greater = nat_eq run.max_lsn null_lsn || ltb run.max_lsn r.lsn in
    record run {
      file = write_record run.file r;
      max_lsn = if greater then r.lsn else run.max_lsn;
      max_log_size = if greater then get_size r else run.max_log_size;
    }

unfoldable pub flush_loop : ℕ → List LogRecord → FlushRun → FlushRun
flush_loop lsn [] run = run
flush_loop lsn (r ∷ rest) run =
    flush_loop lsn rest
      (if stays lsn r then record run { kept = run.kept ++ r ∷ [] } else flush_one run r)

abbrev pub no_flush : LogFile → FlushRun
no_flush disk = record { file = disk; max_lsn = null_lsn; max_log_size = 0; kept = [] }

-- What `Flush` does behind its loop.
abbrev pub end_flush : LogManager → FlushRun → LogManager
end_flush s run =
    let end = (run.max_lsn + run.max_log_size) % 2 ^ 64 in
    let old : ℕ = elim s.next_lsn_file [ none ↦ first_lsn | some n ↦ n ] in
    let further =
      not (nat_eq run.max_lsn null_lsn)
      && (nat_eq s.flushed_lsn null_lsn || ltb s.flushed_lsn run.max_lsn) in
    record s {
      disk = run.file;
      log_buffer = run.kept;
      flushed_lsn = if further then run.max_lsn else s.flushed_lsn;
      next_lsn_file = if further && ltb old end then some end else s.next_lsn_file;
    }

unfoldable pub flush : LogManager → ℕ → LogManager
flush s lsn = end_flush s (flush_loop lsn s.log_buffer (no_flush s.disk))

-- `AppendCommitLog` and `AppendRollbackLog`.
abbrev pub append_end : Body → LogManager → ℕ → Result (LogManager × ℕ)
append_end body s xid = with_last s xid λ prev.
    let s1 = flush (add_log s (new_log body xid prev)) s.next_lsn in
    (record s1 { att = erase xid s1.att }, s.next_lsn)

unfoldable pub append_commit_log : LogManager → ℕ → Result (LogManager × ℕ)
append_commit_log s xid = append_end commit s xid

unfoldable pub append_rollback_log : LogManager → ℕ → Result (LogManager × ℕ)
append_rollback_log s xid = append_end rollback s xid

unfoldable pub checkpoint : LogManager → LogManager × ℕ
checkpoint s =
    let s1 = add_log s (new_log begin_checkpoint null_xid null_lsn) in
    let s2 = add_log s1 (new_log (end_checkpoint s1.att s1.dpt) null_xid null_lsn) in
    let s3 = flush s2 s1.next_lsn in (record s3 { master_record = some s.next_lsn }, s1.next_lsn)

unfoldable pub flush_page : LogManager → (table_oid page_id page_lsn : ℕ) → LogManager
flush_page s table_oid page_id page_lsn =
    let s1 = flush s page_lsn in record s1 { dpt = erase (page_of table_oid page_id) s1.dpt }
