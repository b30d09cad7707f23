-- ===== src/Log/Manager/Steps.antt =====
-- Sequences of operations of the log manager, as a step relation.
use database_hw.Prelude.{ℕ, ◌^◌, ◌<◌, ◌≡◌, refl, List, [], ◌∷◌, ◌++◌, Option, take, arith, subst}
use database_hw.Types.{null_xid, null_lsn}
use database_hw.Result.{ok}
use database_hw.Log.Record.{
  LogRecord, begin, commit, rollback, begin_checkpoint, insertion, deletion, new_page,
  end_checkpoint,
}
use database_hw.Log.File.{LogFile}
use database_hw.Log.Manager.{
  LogManager, ddl_xid, new_log, new_log_manager, add_log, append_insert_log, append_delete_log,
  append_new_page_log, append_begin_log, append_commit_log, append_rollback_log, checkpoint, flush,
  flush_page,
}
use database_hw.Log.Manager.History.{IsValid, unwritten, last}
use database_hw.Log.Manager.Valid.{flush-Durable}
use database_hw.Log.Manager.Append.{Fit, placed}
use database_hw.Log.Manager.Calls.{
  FitLast, appended, append_insert_log-IsValid, append_delete_log-IsValid, append_begin_log-IsValid,
  append_commit_log-IsValid, append_rollback_log-IsValid,
}
use database_hw.Log.Manager.Tables.{
  appended_page, appended_checkpoint, append_new_page_log-IsValid, checkpoint-IsValid,
  flush_page-IsValid,
}

-- One call that returns, with the records that it appends, the newest first, which fit their widths
-- and the log file's offsets.
pub data Step (s s' : LogManager) : List LogRecord → Type 0 where
  inserts :
      (lsn xid oid page_id slot_id offset size : ℕ) (raw : List ℕ)
      → FitLast s (insertion oid page_id slot_id offset size (take size raw)) xid
      → append_insert_log s xid oid page_id slot_id offset size raw ≡ ok (s', lsn)
      → Step s s' (appended s (insertion oid page_id slot_id offset size (take size raw)) xid)
  deletes :
      (lsn xid oid page_id slot_id : ℕ)
      → FitLast s (deletion oid page_id slot_id) xid
      → append_delete_log s xid oid page_id slot_id ≡ ok (s', lsn)
      → Step s s' (appended s (deletion oid page_id slot_id) xid)
  adds_page :
      (lsn xid oid prev_page_id page_id : ℕ)
      → FitLast s (new_page oid prev_page_id page_id) xid
      → (xid ≡ ddl_xid → Fit s (new_log (new_page oid prev_page_id page_id) xid null_xid))
      → append_new_page_log s xid oid prev_page_id page_id ≡ ok (s', lsn)
      → Step s s' (appended_page s xid oid prev_page_id page_id)
  begins :
      (lsn xid : ℕ)
      → Fit s (new_log begin xid null_lsn)
      → append_begin_log s xid ≡ ok (s', lsn)
      → Step s s' (placed s (new_log begin xid null_lsn) ∷ [])
  commits :
      (lsn xid : ℕ)
      → FitLast s commit xid
      → append_commit_log s xid ≡ ok (s', lsn)
      → Step s s' (appended s commit xid)
  rolls_back :
      (lsn xid : ℕ)
      → FitLast s rollback xid
      → append_rollback_log s xid ≡ ok (s', lsn)
      → Step s s' (appended s rollback xid)
  checkpoints :
      Fit s (new_log begin_checkpoint null_xid null_lsn)
      → Fit
          (add_log s (new_log begin_checkpoint null_xid null_lsn))
          (new_log (end_checkpoint s.att s.dpt) null_xid null_lsn)
      → (checkpoint s).0 ≡ s'
      → Step s s' (appended_checkpoint s)
  flushes : (lsn : ℕ) → flush s lsn ≡ s' → Step s s' []
  flushes_page :
      (table_oid page_id page_lsn : ℕ) → flush_page s table_oid page_id page_lsn ≡ s' → Step s s' []

pub Step-IsValid :
    (s s' : LogManager) (h news : List LogRecord)
    → IsValid s h
    → Step s s' news
    → IsValid s' (news ++ h)
Step-IsValid s s' h _ valid (inserts lsn xid oid page_id slot_id offset size raw fit run) =
    append_insert_log-IsValid s s' h lsn valid xid oid page_id slot_id offset size raw fit run
Step-IsValid s s' h _ valid (deletes lsn xid oid page_id slot_id fit run) =
    append_delete_log-IsValid s s' h lsn valid xid oid page_id slot_id fit run
Step-IsValid s s' h _ valid (adds_page lsn xid oid prev_page_id page_id fit ddl run) =
    append_new_page_log-IsValid s s' h lsn valid xid oid prev_page_id page_id fit ddl run
Step-IsValid s s' h _ valid (begins lsn xid fit run) =
    append_begin_log-IsValid s s' h lsn valid xid fit run
Step-IsValid s s' h _ valid (commits lsn xid fit run) =
    append_commit_log-IsValid s s' h lsn valid xid fit run
Step-IsValid s s' h _ valid (rolls_back lsn xid fit run) =
    append_rollback_log-IsValid s s' h lsn valid xid fit run
Step-IsValid s s' h _ valid (checkpoints first second run) =
    subst (λ (t : LogManager). IsValid t (appended_checkpoint s ++ h)) run
      (checkpoint-IsValid s h valid first second)
Step-IsValid s s' h _ valid (flushes lsn run) =
    subst (λ (t : LogManager). IsValid t h) run (flush-Durable s lsn h valid).valid
Step-IsValid s s' h _ valid (flushes_page table_oid page_id page_lsn run) =
    subst (λ (t : LogManager). IsValid t h) run
      (flush_page-IsValid s h table_oid page_id page_lsn valid)

-- Calls one behind the other, with all the records that they append, the newest first.
pub data Steps (s : LogManager) : LogManager → List LogRecord → Type 0 where
  stop : Steps s s []
  then_step :
      (t u : LogManager) (h news : List LogRecord)
      → Steps s t h
      → Step t u news
      → Steps s u (news ++ h)

pub new_log_manager-IsValid :
    (disk : LogFile) (next_lsn_file master_record : Option ℕ) (next_lsn : ℕ)
    → next_lsn < 2 ^ 32
    → IsValid (new_log_manager disk next_lsn_file master_record next_lsn) []
unfolding unwritten last
new_log_manager-IsValid disk next_lsn_file master_record next_lsn small = record {
  small = small;
  flushed = omega (arith, small);
  history = tt;
  buffer = refl;
  disk = λ r m. absurd m;
  active = λ xid user. refl;
}

-- From a new log manager on, after any sequence of appends of log records, checkpoints and flushes
-- that return, also of pages, with records that fit and lsns below 2^32, the state agrees with the records that these
-- calls have appended: the log file has the ones up to `flushed_lsn_`, the buffer the others in their
-- order, and the table of active transactions has the last record of each transaction, other than
-- DDL's, that goes on. (A crash's `Clear` and recovery are not among these calls.)
pub Steps-IsValid :
    (disk : LogFile) (next_lsn_file master_record : Option ℕ) (next_lsn : ℕ) (s : LogManager)
    (h : List LogRecord)
    → next_lsn < 2 ^ 32
    → Steps (new_log_manager disk next_lsn_file master_record next_lsn) s h
    → IsValid s h
Steps-IsValid disk next_lsn_file master_record next_lsn s h small stop =
    new_log_manager-IsValid disk next_lsn_file master_record next_lsn small
Steps-IsValid disk next_lsn_file master_record next_lsn s _ small
      (then_step t u h news before step) =
    Step-IsValid t u h news
      (Steps-IsValid disk next_lsn_file master_record next_lsn t h small before) step
