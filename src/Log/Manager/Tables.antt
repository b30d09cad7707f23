-- ===== src/Log/Manager/Tables.antt =====
-- New pages, checkpoints and flushed pages, which change the table of dirty pages or write
-- records of no transaction.
use database_hw.Prelude.{
  ℕ, ◌≡◌, ◌⊎◌, nat_eq-cases, refl, sym, subst, ◌∙◌, inl, inr, List, [], ◌∷◌, ◌++◌, Bool, true,
  false, Option, some, find, insert, erase, nat_eq, nat_eq-cases, eq_nat, if◌then◌else◌, arith,
}
use database_hw.Types.{null_page_id, null_xid, eq_table_pageid, null_lsn}
use database_hw.Result.{ok}
use database_hw.Log.Record.{LogRecord, DirtyTable, Body, begin_checkpoint, new_page, end_checkpoint}
use database_hw.Log.Manager.Valid.{flush-Durable}
use database_hw.Log.Manager.{LogManager, ddl_xid, new_log, add_log, flush}
use database_hw.Log.Manager.History.{IsValid, is_checkpoint, unwritten_same}
use database_hw.Log.Manager.Append.{
  Follows, Fit, Addable, placed, insert-Follows, skip-Follows, add_log-IsValid,
}
use database_hw.Log.Manager.{
  flush_page, append_new_page_log, add_new_page, checkpoint, mark_dirty, page_of,
}
use database_hw.Log.Manager.Calls.{FitLast, appended, grown}

-- The table of dirty pages and the master record have no part in the invariant.
any_dpt :
    (t : LogManager) (g : List LogRecord) (dpt : DirtyTable) (master : Option ℕ)
    → IsValid t g
    → IsValid (record t { dpt = dpt; master_record = master }) g
any_dpt t g dpt master valid = record {
  small = valid.small;
  flushed = valid.flushed;
  history = valid.history;
  buffer =
      valid.buffer ∙ sym (unwritten_same t (record t { dpt = dpt; master_record = master }) g refl);
  disk = valid.disk;
  active = valid.active;
}

-- The record of a new page, and the two of a checkpoint.
abbrev pub appended_page : LogManager → (xid oid prev_page_id page_id : ℕ) → List LogRecord
appended_page s xid oid prev_page_id page_id =
    let body = new_page oid prev_page_id page_id in
    if nat_eq xid ddl_xid then placed s (new_log body xid null_xid) ∷ [] else appended s body xid

abbrev pub appended_checkpoint : LogManager → List LogRecord
appended_checkpoint s =
    let begun = new_log begin_checkpoint null_xid null_lsn in
    placed (add_log s begun) (new_log (end_checkpoint s.att s.dpt) null_xid null_lsn)
    ∷ placed s begun
    ∷ []

if-IsValid :
    (b : Bool) (t u : LogManager) (g : List LogRecord)
    → IsValid t g
    → IsValid u g
    → IsValid (if b then t else u) g
if-IsValid true t u g x y = x
if-IsValid false t u g x y = y

checkpoint_record-IsValid :
    (s : LogManager) (h : List LogRecord) (body : Body)
    → is_checkpoint body ≡ true
    → IsValid s h
    → Fit s (new_log body null_xid null_lsn)
    → IsValid
        (add_log s (new_log body null_xid null_lsn))
        (placed s (new_log body null_xid null_lsn) ∷ h)
unfolding add_log
checkpoint_record-IsValid s h body plain valid fit =
    let r = new_log body null_xid null_lsn in
    let add : Addable s h r = record {
      fits = fit.fits;
      room = fit.room;
      short = fit.short;
      prev = λ c user. absurd (ground (arith, plain, c));
    } in
    add_log-IsValid s h r s.att s.dpt valid add
      (skip-Follows s h body null_xid valid null_lsn (inl plain))

module _ (s s' : LogManager) (h : List LogRecord) (lsn : ℕ) (valid : IsValid s h) where
  new_page-IsValid :
      (xid prev oid prev_page_id page_id : ℕ)
      → (xid ≡ ddl_xid) ⊎ (find xid s.att ≡ some prev)
      → Fit s (new_log (new_page oid prev_page_id page_id) xid prev)
      → IsValid
          (add_new_page s xid prev oid prev_page_id page_id)
          (placed s (new_log (new_page oid prev_page_id page_id) xid prev) ∷ h)
  unfolding add_log
  new_page-IsValid xid prev oid prev_page_id page_id who fit =
      let body = new_page oid prev_page_id page_id in
      let r = new_log body xid prev in
      let g = placed s r ∷ h in
      let att = if nat_eq xid ddl_xid then s.att else insert xid s.next_lsn s.att in
      let add : Addable s h r = record {
        fits = fit.fits;
        room = fit.room;
        short = fit.short;
        prev = λ c user. ground (arith, who, user, valid.active xid user);
      } in
      let follows : Follows att g = λ j user. elim (nat_eq-cases xid ddl_xid) [
        | inl e ↦ ground (arith, e, skip-Follows s h body xid valid prev (inr e) j user)
        | inr ne ↦ ground (arith, ne, insert-Follows s h body xid valid prev refl refl j user)
      ] in
      let t : LogManager = record (add_log s r) { att = att; dpt = s.dpt } in
      let base = add_log-IsValid s h r att s.dpt valid add follows in
      let d1 = mark_dirty (page_of oid page_id) s.next_lsn s.dpt in
      let d2 = mark_dirty (page_of oid prev_page_id) s.next_lsn d1 in
      if-IsValid (nat_eq prev_page_id null_page_id) _ _ g (any_dpt t g d1 s.master_record base)
        (any_dpt t g d2 s.master_record base)

  pub append_new_page_log-IsValid :
      (xid oid prev_page_id page_id : ℕ)
      → FitLast s (new_page oid prev_page_id page_id) xid
      → (xid ≡ ddl_xid → Fit s (new_log (new_page oid prev_page_id page_id) xid null_xid))
      → append_new_page_log s xid oid prev_page_id page_id ≡ ok (s', lsn)
      → IsValid s' (appended_page s xid oid prev_page_id page_id ++ h)
  unfolding append_new_page_log
  append_new_page_log-IsValid xid oid prev_page_id page_id fit ddl run =
      elim (nat_eq-cases xid ddl_xid) [
        | inl e ↦
            let t = add_new_page s xid null_xid oid prev_page_id page_id in
            let own : nat_eq xid ddl_xid ≡ true = ground (arith, e) in
            let same : (t, s.next_lsn) ≡ (s', lsn) = ground (arith, e, run) in
            let r = placed s (new_log (new_page oid prev_page_id page_id) xid null_xid) in
            subst
              (λ (b : Bool).
                IsValid s'
                  ((if b then r ∷ [] else appended s (new_page oid prev_page_id page_id) xid) ++ h))
              (sym own)
              (subst (λ (p : LogManager × ℕ). IsValid p.0 (r ∷ h)) same
                (new_page-IsValid xid null_xid oid prev_page_id page_id (inl e) (ddl e)))
        | inr ne ↦
            let r = placed s (new_log (new_page oid prev_page_id page_id) xid null_xid) in
            let other : nat_eq xid ddl_xid ≡ false = ground (arith, ne) in
            subst
              (λ (b : Bool).
                IsValid s'
                  ((if b then r ∷ [] else appended s (new_page oid prev_page_id page_id) xid) ++ h))
              (sym other)
              (grown s s' h lsn valid (new_page oid prev_page_id page_id) xid
                (λ prev. (add_new_page s xid prev oid prev_page_id page_id, s.next_lsn))
                (ground (arith, ne, run))
                (λ prev found.
                  new_page-IsValid xid prev oid prev_page_id page_id (inr found) (fit prev found)))
      ]

pub checkpoint-IsValid :
    (s : LogManager) (h : List LogRecord)
    → IsValid s h
    → Fit s (new_log begin_checkpoint null_xid null_lsn)
    → Fit
        (add_log s (new_log begin_checkpoint null_xid null_lsn))
        (new_log (end_checkpoint s.att s.dpt) null_xid null_lsn)
    → IsValid (checkpoint s).0 (appended_checkpoint s ++ h)
unfolding checkpoint add_log
checkpoint-IsValid s h valid first second =
    let begun = new_log begin_checkpoint null_xid null_lsn in
    let ended = new_log (end_checkpoint s.att s.dpt) null_xid null_lsn in
    let s1 = add_log s begun in
    let one = checkpoint_record-IsValid s h begin_checkpoint refl valid first in
    let two =
      checkpoint_record-IsValid s1 (placed s begun ∷ h) (end_checkpoint s.att s.dpt) refl one
        second in
    let s3 = flush (add_log s1 ended) s1.next_lsn in
    let flushed =
      flush-Durable (add_log s1 ended) s1.next_lsn (placed s1 ended ∷ placed s begun ∷ h) two in
    any_dpt s3 _ s3.dpt (some s.next_lsn) flushed.valid

pub flush_page-IsValid :
    (s : LogManager) (h : List LogRecord) (table_oid page_id page_lsn : ℕ)
    → IsValid s h
    → IsValid (flush_page s table_oid page_id page_lsn) h
unfolding flush_page
flush_page-IsValid s h table_oid page_id page_lsn valid =
    let s1 = flush s page_lsn in
    any_dpt s1 h (erase (page_of table_oid page_id) s1.dpt) s1.master_record
      (flush-Durable s page_lsn h valid).valid
