-- ===== src/Log/Recovery.antt =====
-- `Recover` of src/log/log_manager.cpp: the analysis of the log behind the last checkpoint, the redo
-- of what the pages lack, and the rollback of the transactions that were active. The loops have fuel
-- for their turns; `none` is when that is used up.
pub mod Reads
pub mod Rebuilt
mod Tests
use database_hw.Prelude.{
  ℕ, zero, suc, ◌+◌, ◌-◌, ◌%◌, ◌^◌, List, [], ◌∷◌, Bool, true, false, Option, none, some, nat_eq,
  ltb, leb, find, insert, erase, eq_nat, if◌then◌else◌,
}
use database_hw.Types.{TablePageid, eq_table_pageid}
use database_hw.Result.{Result, ok, throw, undefined, ◌>>=◌}
use database_hw.Bytes.{Memory, write}
use database_hw.TablePage.{get_page_lsn}
use database_hw.Log.Record.{
  ActiveTable, DirtyTable, Body, commit, rollback, insertion, deletion, new_page, end_checkpoint,
  LogRecord, get_size, base_size, end_checkpoint_deserialize_from,
}
use database_hw.Log.File.{LogFile, read_log}
use database_hw.Log.Manager.{LogManager, first_lsn, mark_dirty, page_of}
use database_hw.Log.Manager.History.{ends}
use database_hw.Log.Undo.{Pages, redo, find_log, read_record}
use database_hw.Log.Undo

-- What the analysis collects: the two tables, and the greatest transaction id.
pub record Analysis : Type 0 where
  pub att : ActiveTable
  pub dpt : DirtyTable
  pub xid_max : ℕ

-- The page that a record is about.
abbrev pub page_key : Body → Option TablePageid
page_key (insertion oid page_id slot_id page_offset record_size raw) = some (page_of oid page_id)
page_key (deletion oid page_id slot_id) = some (page_of oid page_id)
page_key (new_page oid prev_page_id page_id) = some (page_of oid page_id)
page_key _ = none

-- The body of the loop of `Analyze`, which reads a record of a page a second time as its kind.
unfoldable pub analyze_one : Analysis → LogRecord → Analysis
analyze_one a r = record {
  att = if ends r.body then erase r.xid a.att else insert r.xid r.lsn a.att;
  dpt = elim (page_key r.body) [ none ↦ a.dpt | some k ↦ mark_dirty k r.lsn a.dpt ];
  xid_max = if ltb a.xid_max r.xid then r.xid else a.xid_max;
}

unfoldable pub analyze_loop :
    ℕ → LogFile → (next_lsn lsn_now : ℕ) → Analysis → Option (Result Analysis)
analyze_loop zero disk next_lsn lsn_now a = none
analyze_loop (suc n) disk next_lsn lsn_now a = elim (ltb lsn_now next_lsn) [
  | false ↦ some (ok a)
  | true ↦ elim (read_record disk lsn_now) [
    | ok r ↦ analyze_loop n disk next_lsn ((lsn_now + get_size r) % 2 ^ 64) (analyze_one a r)
    | throw e ↦ some (throw e)
    | undefined ↦ some undefined
  ]
]

-- The array that `ReadLog` has filled.
abbrev pub read_array : LogFile → (lsn count : ℕ) → Result Memory
read_array disk lsn count = do bytes ← read_log disk lsn count; ok (write (λ i. 0) 0 bytes)

-- The records of the checkpoint: of the first only the size is used, which is the same for all of
-- its kind; the second has the tables.
unfoldable pub read_checkpoint : LogFile → (next_lsn checkpoint_lsn : ℕ) → Result LogRecord
read_checkpoint disk next_lsn checkpoint_lsn = do
  begin_log ← read_array disk checkpoint_lsn ((next_lsn + 2 ^ 64 - checkpoint_lsn) % 2 ^ 64)
  let end_lsn = (checkpoint_lsn + base_size) % 2 ^ 64
  end_log ← read_array disk end_lsn ((next_lsn + 2 ^ 64 - end_lsn) % 2 ^ 64)
  ok (end_checkpoint_deserialize_from end_lsn end_log 1)

abbrev pub tables : Body → Analysis
tables (end_checkpoint att dpt) = record { att = att; dpt = dpt; xid_max = 0 }
tables _ = record { att = []; dpt = []; xid_max = 0 }

abbrev pub or_else : Option ℕ → ℕ → ℕ
or_else none n = n
or_else (some m) n = m

-- What `Analyze` sets, and the argument of `SetNextXid`.
abbrev pub analyzed : LogManager → ℕ → Analysis → LogManager × ℕ
analyzed s next_lsn a = (
  record s {
    att = a.att;
    dpt = a.dpt;
    next_lsn = next_lsn;
    flushed_lsn = (next_lsn + 2 ^ 64 - 1) % 2 ^ 64;
  },
  (a.xid_max + 1) % 2 ^ 32,
)

-- `Analyze` behind its loop, and behind the read of the checkpoint.
abbrev pub end_analyze :
    LogManager → ℕ → Option (Result Analysis) → Option (Result (LogManager × ℕ))
end_analyze s next_lsn none = none
end_analyze s next_lsn (some r) = some (r >>= λ a. ok (analyzed s next_lsn a))

abbrev pub analyze_behind : ℕ → LogManager → ℕ → Result LogRecord → Option (Result (LogManager × ℕ))
analyze_behind fuel s next_lsn (throw e) = some (throw e)
analyze_behind fuel s next_lsn undefined = some undefined
analyze_behind fuel s next_lsn (ok r) =
    end_analyze s next_lsn
      (analyze_loop fuel s.disk next_lsn ((r.lsn + get_size r) % 2 ^ 64) (tables r.body))

unfoldable pub analyze : ℕ → LogManager → Option (Result (LogManager × ℕ))
analyze fuel s =
    let next_lsn = or_else s.next_lsn_file first_lsn in
    analyze_behind fuel s next_lsn (read_checkpoint s.disk next_lsn (or_else s.master_record 0))
