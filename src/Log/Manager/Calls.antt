-- ===== src/Log/Manager/Calls.antt =====
-- Each operation of the log manager keeps the invariant, for a history that has grown.
use database_hw.Prelude.{
  ℕ, ◌≡◌, refl, sym, subst, inl, inr, List, [], ◌∷◌, ◌++◌, Option, none, some, Option-cases, find,
  insert, eq_nat, take, arith,
}
use database_hw.Types.{eq_table_pageid, null_lsn}
use database_hw.Result.{ok}
use database_hw.Log.Record.{LogRecord, Body, begin, commit, rollback, insertion, deletion}
use database_hw.Log.Manager.{
  append_insert_log, append_delete_log, append_commit_log, append_rollback_log, with_last,
  LogManager, new_log, add_log, flush,
}
use database_hw.Log.Manager.History.{IsValid}
use database_hw.Log.Manager.Append.{
  with_last_ok, Fit, Addable, placed, insert-Follows, add_log-IsValid, insert-IsValid, end-Durable,
}
use database_hw.Log.Manager.{append_begin_log}

-- The record would fit, with whatever the transaction's last record is.
abbrev pub FitLast : LogManager → Body → ℕ → Type 0
FitLast s body xid = (prev : ℕ) → find xid s.att ≡ some prev → Fit s (new_log body xid prev)

-- The record that a call appends for a transaction that is active.
abbrev pub log_of : LogManager → Body → ℕ → Option ℕ → List LogRecord
log_of s body xid none = []
log_of s body xid (some prev) = placed s (new_log body xid prev) ∷ []

abbrev pub appended : LogManager → Body → ℕ → List LogRecord
appended s body xid = log_of s body xid (find xid s.att)

module _ (s s' : LogManager) (h : List LogRecord) (lsn : ℕ) (valid : IsValid s h) where
  pub grown :
      (body : Body) (xid : ℕ) (f : ℕ → LogManager × ℕ)
      → with_last s xid f ≡ ok (s', lsn)
      → ((prev : ℕ)
          → find xid s.att ≡ some prev
          → IsValid (f prev).0 (placed s (new_log body xid prev) ∷ h))
      → IsValid s' (appended s body xid ++ h)
  grown body xid f run kept =
      let (prev, found, same) = with_last_ok s xid f (s', lsn) run in
      subst (λ (o : Option ℕ). IsValid s' (log_of s body xid o ++ h)) (sym found)
        (subst (λ (p : LogManager × ℕ). IsValid p.0 (placed s (new_log body xid prev) ∷ h)) same
          (kept prev found))

  pub append_insert_log-IsValid :
      (xid oid page_id slot_id offset size : ℕ) (raw : List ℕ)
      → FitLast s (insertion oid page_id slot_id offset size (take size raw)) xid
      → append_insert_log s xid oid page_id slot_id offset size raw ≡ ok (s', lsn)
      → IsValid s' (appended s (insertion oid page_id slot_id offset size (take size raw)) xid ++ h)
  unfolding append_insert_log add_log
  append_insert_log-IsValid xid oid page_id slot_id offset size raw fit run =
      let body = insertion oid page_id slot_id offset size (take size raw) in
      grown body xid _ run
        (λ prev found. insert-IsValid s h body xid valid refl prev _ refl found (fit prev found))

  pub append_delete_log-IsValid :
      (xid oid page_id slot_id : ℕ)
      → FitLast s (deletion oid page_id slot_id) xid
      → append_delete_log s xid oid page_id slot_id ≡ ok (s', lsn)
      → IsValid s' (appended s (deletion oid page_id slot_id) xid ++ h)
  unfolding append_delete_log add_log
  append_delete_log-IsValid xid oid page_id slot_id fit run =
      let body = deletion oid page_id slot_id in
      grown body xid _ run
        (λ prev found. insert-IsValid s h body xid valid refl prev _ refl found (fit prev found))

  pub append_commit_log-IsValid :
      (xid : ℕ)
      → FitLast s commit xid
      → append_commit_log s xid ≡ ok (s', lsn)
      → IsValid s' (appended s commit xid ++ h)
  unfolding append_commit_log flush add_log
  append_commit_log-IsValid xid fit run =
      grown commit xid _ run (λ prev found.
        (end-Durable s h commit xid valid refl prev refl found (fit prev found)).valid)

  pub append_rollback_log-IsValid :
      (xid : ℕ)
      → FitLast s rollback xid
      → append_rollback_log s xid ≡ ok (s', lsn)
      → IsValid s' (appended s rollback xid ++ h)
  unfolding append_rollback_log flush add_log
  append_rollback_log-IsValid xid fit run = grown rollback xid _ run (λ prev found.
      (end-Durable s h rollback xid valid refl prev refl found (fit prev found)).valid)

  pub append_begin_log-IsValid :
      (xid : ℕ)
      → Fit s (new_log begin xid null_lsn)
      → append_begin_log s xid ≡ ok (s', lsn)
      → IsValid s' (placed s (new_log begin xid null_lsn) ∷ h)
  unfolding append_begin_log add_log
  append_begin_log-IsValid xid fit run = elim (Option-cases (find xid s.att)) [
    | inr (old, e) ↦ absurd (ground (arith, e, run))
    | inl e ↦
        let r = new_log begin xid null_lsn in
        let add : Addable s h r = record {
          fits = fit.fits;
          room = fit.room;
          short = fit.short;
          prev = λ c u. ground (arith, valid.active xid u, e);
        } in
        let new =
          add_log-IsValid s h r (insert xid s.next_lsn s.att) s.dpt valid add
            (insert-Follows s h begin xid valid null_lsn refl refl) in
        let t : LogManager = record (add_log s r) {
          att = insert xid s.next_lsn s.att;
          dpt = s.dpt;
        } in
        let same : (t, s.next_lsn) ≡ (s', lsn) = ground (arith, e, run) in
        subst (λ (p : LogManager × ℕ). IsValid p.0 (placed s r ∷ h)) same new
  ]
