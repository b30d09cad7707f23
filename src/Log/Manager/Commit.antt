-- ===== src/Log/Manager/Commit.antt =====
-- A commit is durable when `AppendCommitLog` returns.
use database_hw.Prelude.{
  ℕ, ◌≡◌, refl, sym, ap, ◌∙◌, List, ◌∷◌, none, some, find, find-erase, Has, eq_nat, nat_eq,
  if◌then◌else◌,
}
use database_hw.Result.{ok}
use database_hw.Log.Record.{LogRecord, commit, deserialize_from}
use database_hw.Log.Record.RoundTrip.{stored-deserialize_from}
use database_hw.Log.Manager.{LogManager, new_log, add_log, flush, append_commit_log}
use database_hw.Log.Manager.History.{History-lt, IsValid}
use database_hw.Log.Manager.Append.{placed, with_last_ok, left_table, end-Durable, all_written}
use database_hw.Log.Manager.Calls.{FitLast}

-- In a valid state, a commit that returns, and whose record fits, has added its record, and that
-- record and every one before it can be read from the log file at its lsn; the transaction is no
-- longer active, and the others are as before.
pub append_commit_log-durable :
    (s s' : LogManager) (h : List LogRecord) (xid lsn : ℕ)
    → IsValid s h
    → FitLast s commit xid
    → append_commit_log s xid ≡ ok (s', lsn)
    → (prev : ℕ) × (find xid s.att ≡ some prev)
      × (lsn ≡ s.next_lsn)
      × ((r : LogRecord)
          → Has r (placed s (new_log commit xid prev) ∷ h)
          → deserialize_from r.lsn s'.disk.bytes r.lsn ≡ ok r)
      × ((j : ℕ) → find j s'.att ≡ (if nat_eq xid j then none else find j s.att))
unfolding append_commit_log flush add_log
append_commit_log-durable s s' h xid lsn valid fit run =
    let (prev, found, same) = with_last_ok s xid _ (s', lsn) run in
    let durable = end-Durable s h commit xid valid refl prev refl found (fit prev found) in
    let up = all_written s h commit xid valid refl prev refl found (fit prev found) in
    let t = flush (left_table s h commit xid valid refl prev) s.next_lsn in
    let moved : (t, s.next_lsn) ≡ (s', lsn) = same in
    (
      prev,
      found,
      sym (ap (λ (p : LogManager × ℕ). p.1) moved),
      λ r m.
          let (end, below, fits, short) =
            History-lt t.next_lsn (placed s (new_log commit xid prev) ∷ h) r durable.valid.history
              m in
          ap (λ (p : LogManager × ℕ). deserialize_from r.lsn p.0.disk.bytes r.lsn) (sym moved)
          ∙ stored-deserialize_from r.lsn r.xid r.prev_lsn r.body t.disk.bytes r.lsn fits
              (durable.valid.disk r m (up r m)),
      λ j. ap (λ (p : LogManager × ℕ). find j p.0.att) (sym moved) ∙ find-erase xid j s.att,
    )
