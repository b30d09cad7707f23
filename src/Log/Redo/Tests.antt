-- ===== src/Log/Redo/Tests.antt =====
-- A deletion in the log, and a page that lacks it.
use database_hw.Prelude.{ℕ, Bool, true, false, List, [], ◌∷◌, ◌≡◌, refl, none, some, arith}
use database_hw.Types.{null_lsn, null_xid}
use database_hw.Result.{ok}
use database_hw.Bytes.{read, write, le_bytes}
use database_hw.Log.Record.{
  LogRecord, begin, begin_checkpoint, end_checkpoint, deletion, body_fields, deletion_fields,
  get_size,
}
use database_hw.Log.Record.Fields.{fields_bytes}
use database_hw.Log.Record.RoundTrip.{Fits, log_bytes}
use database_hw.Log.File.{LogFile}
use database_hw.Log.Manager.{LogManager, new_log_manager}
use database_hw.Log.Recovery.{Analysis, analyzed, tables}
use database_hw.Log.Manager.History.{History, OnDisk}
use database_hw.Log.Undo.{Pages, Pool}
use database_hw.Log.Recovery.Rebuilt.{Chain, analyze_all, after}
use database_hw.Log.Redo.{least, redo_start, redo_pages}
use database_hw.Log.Redo.Order.{redo_all, redo_pages-redo_all}

abbrev lost_deletion : LogRecord
lost_deletion = record { lsn = 13; xid = 1; prev_lsn = 0; body = deletion 10000 0 0 }

abbrev lost_file : LogFile
lost_file = record {
  bytes = write (λ i. 0) 13 (log_bytes lost_deletion);
  size = 1048576;
  log_segments = 1;
}

abbrev restarted : LogManager
restarted = record {
  att = (1, 13) ∷ [];
  dpt = (record { table_oid = 10000; page_id = 0 }, 13) ∷ [];
  next_lsn = 36;
  flushed_lsn = 35;
  log_buffer = [];
  disk = lost_file;
  next_lsn_file = some 36;
  master_record = none;
}

abbrev blank_pages : Pages
blank_pages = λ k. record { bytes = λ i. 0; dirty = false }

abbrev any_table : ℕ → Bool
any_table oid = true

deletion-OnDisk : OnDisk lost_file lost_deletion
unfolding read write log_bytes fields_bytes le_bytes body_fields deletion_fields
deletion-OnDisk = refl

restarted-Chain : Chain restarted.disk (redo_start restarted) 36 (lost_deletion ∷ [])
unfolding get_size Fits body_fields deletion_fields redo_start least
restarted-Chain = (refl, ground arith, deletion-OnDisk, omega arith, refl)

redo_pages-redo_all_example :
    redo_pages restarted any_table 2 blank_pages
    ≡ some (ok (redo_all restarted any_table (lost_deletion ∷ []) blank_pages))
redo_pages-redo_all_example =
    redo_pages-redo_all restarted any_table 2 (lost_deletion ∷ []) blank_pages restarted-Chain
      (omega arith) (omega arith) (omega arith) (omega arith)

-- A crash behind a checkpoint, with a transaction that deleted a record before it was to commit.
abbrev opened : LogRecord
opened = record { lsn = 0; xid = 7; prev_lsn = null_lsn; body = begin }

abbrev checkpoint_begin : LogRecord
checkpoint_begin = record { lsn = 13; xid = null_xid; prev_lsn = null_lsn; body = begin_checkpoint }

abbrev checkpoint_end : LogRecord
checkpoint_end = record {
  lsn = 26;
  xid = null_xid;
  prev_lsn = null_lsn;
  body = end_checkpoint ((7, 0) ∷ []) [];
}

abbrev unfinished : LogRecord
unfinished = record { lsn = 67; xid = 7; prev_lsn = 0; body = deletion 10000 0 0 }

abbrev crash_file : LogFile
crash_file = record {
  bytes =
      write
        (write (write (write (λ i. 0) 0 (log_bytes opened)) 13 (log_bytes checkpoint_begin)) 26
          (log_bytes checkpoint_end))
        67 (log_bytes unfinished);
  size = 1048576;
  log_segments = 1;
}

abbrev crashed : LogManager
crashed = new_log_manager crash_file (some 90) (some 13) 0

abbrev crash_history : List LogRecord
crash_history = unfinished ∷ checkpoint_end ∷ checkpoint_begin ∷ opened ∷ []

abbrev found : Analysis
found = analyze_all (tables checkpoint_end.body) (unfinished ∷ [])

abbrev recovered : LogManager
recovered = (analyzed crashed 90 found).0

-- Every page is in its file, and none leaves its frame.
abbrev pool : Pool
pool = record { readable = λ k. true; evicted = λ r. [] }

abbrev whole : List LogRecord
whole = after (checkpoint_end ∷ checkpoint_begin ∷ opened ∷ []) (unfinished ∷ [])
