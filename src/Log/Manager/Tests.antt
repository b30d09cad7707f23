-- ===== src/Log/Manager/Tests.antt =====
-- A transaction that begins and commits on an empty log.
use database_hw.Prelude.{
  ℕ, [], ◌∷◌, ◌≡◌, inl, refl, none, some, find, erase, eq_nat, nat_eq, if◌then◌else◌, Has, arith,
}
use database_hw.Types.{null_lsn}
use database_hw.Result.{ok}
use database_hw.Log.Record.{LogRecord, begin, commit, body_fields, get_size, deserialize_from}
use database_hw.Log.Record.RoundTrip.{Fits}
use database_hw.Log.File.{LogFile}
use database_hw.Log.Manager.{
  LogManager, new_log, new_log_manager, add_log, flush, with_last, append_begin_log,
  append_commit_log,
}
use database_hw.Log.Manager.History.{IsValid, unwritten, last}
use database_hw.Log.Manager.Valid.{Durable, flush-Durable}
use database_hw.Log.Manager.Append.{Fit, placed}
use database_hw.Log.Manager.Calls.{FitLast}
use database_hw.Log.Manager.Steps.{stop, then_step, begins, Steps-IsValid}
use database_hw.Log.Manager.Commit.{append_commit_log-durable}

abbrev empty_file : LogFile
empty_file = record { bytes = λ i. 0; size = 1048576; log_segments = 1 }

abbrev fresh_manager : LogManager
fresh_manager = new_log_manager empty_file none none 0

abbrev begun : LogManager
begun = record fresh_manager {
  att = (1, 0) ∷ [];
  next_lsn = 13;
  log_buffer = record { lsn = 0; xid = 1; prev_lsn = null_lsn; body = begin } ∷ [];
}

begin-run : append_begin_log fresh_manager 1 ≡ ok (begun, 0)
unfolding append_begin_log add_log get_size
begin-run = refl

begin-Fit : Fit fresh_manager (new_log begin 1 null_lsn)
unfolding Fits body_fields get_size
begin-Fit = record { fits = ground arith; room = omega arith; short = λ plain. omega arith }

Steps-IsValid_example : IsValid begun (placed fresh_manager (new_log begin 1 null_lsn) ∷ [])
Steps-IsValid_example =
    Steps-IsValid empty_file none none 0 begun
      (placed fresh_manager (new_log begin 1 null_lsn) ∷ []) (omega arith)
      (then_step fresh_manager begun [] (placed fresh_manager (new_log begin 1 null_lsn) ∷ []) stop
        (begins 0 1 begin-Fit begin-run))

begun-IsValid : IsValid begun (begun.log_buffer)
unfolding Fits body_fields get_size unwritten last
begun-IsValid = record {
  small = omega arith;
  flushed = inl refl;
  history = (refl, omega arith, ground arith, λ p. omega arith, λ p u. refl, tt);
  buffer = refl;
  disk = λ r m is. absurd (ground arith);
  active = λ xid user. ground arith;
}

flush-Durable_example : Durable begun (flush begun 0) 0 begun.log_buffer
flush-Durable_example = flush-Durable begun 0 begun.log_buffer begun-IsValid

abbrev committed : LogManager
committed =
    let t = flush (add_log begun (new_log commit 1 0)) 13 in record t { att = erase 1 t.att }

commit-run : append_commit_log begun 1 ≡ ok (committed, 13)
unfolding append_commit_log with_last
commit-run = refl

commit-FitLast : FitLast begun commit 1
unfolding Fits body_fields get_size
commit-FitLast prev found = record {
  fits = ground arith;
  room = omega arith;
  short = λ plain. omega arith;
}

append_commit_log-durable_example :
    (prev : ℕ) × (find 1 begun.att ≡ some prev)
    × (13 ≡ begun.next_lsn)
    × ((r : LogRecord)
        → Has r (placed begun (new_log commit 1 prev) ∷ begun.log_buffer)
        → deserialize_from r.lsn committed.disk.bytes r.lsn ≡ ok r)
    × ((j : ℕ) → find j committed.att ≡ (if nat_eq 1 j then none else find j begun.att))
append_commit_log-durable_example =
    append_commit_log-durable begun committed begun.log_buffer 1 13 begun-IsValid commit-FitLast
      commit-run
