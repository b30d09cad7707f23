-- ===== src/Log/Manager/Append.antt =====
-- The appends of the log manager: each adds one record to the history.
use database_hw.Prelude.{
  ℕ, ◌+◌, ◌^◌, ◌<◌, ◌≡◌, ◌≢◌, ◌⊎◌, refl, ap, inl, inr, List, ◌∷◌, true, false, some, Option-cases,
  find, insert, erase, find-insert, find-erase, Has, eq_nat, arith,
}
use database_hw.Types.{eq_table_pageid}
use database_hw.Result.{ok}
use database_hw.Log.Record.{LogRecord, ActiveTable, DirtyTable, Body, get_size}
use database_hw.Log.Record.RoundTrip.{Fits, Fits-size}
use database_hw.Log.Manager.Valid.{Durable, flush-Durable}
use database_hw.Log.Manager.{with_last, LogManager, ddl_xid, new_log, add_log, flush}
use database_hw.Log.Manager.History.{
  History-lt, IsValid, Short, ends, is_checkpoint, last, lsn_of, written, unwritten, unwritten_same,
}

-- A record that may be added: it fits, the lsns stay small, and it names the last of its
-- transaction.
pub record Addable (s : LogManager) (h : List LogRecord) (r : LogRecord) : Type 0 where
  pub fits : Fits r
  pub room : s.next_lsn + get_size r < 2 ^ 32
  pub short : Short r
  pub prev : is_checkpoint r.body ≡ false → r.xid ≢ ddl_xid → r.prev_lsn ≡ lsn_of (last r.xid h)

abbrev pub placed : LogManager → LogRecord → LogRecord
placed s r = record r { lsn = s.next_lsn }

-- What `active` of the invariant says after the record.
abbrev pub Follows : ActiveTable → List LogRecord → Type 0
Follows att h = (xid : ℕ) → xid ≢ ddl_xid → find xid att ≡ last xid h

pub add_log-IsValid :
    (s : LogManager) (h : List LogRecord) (r : LogRecord) (att : ActiveTable) (dpt : DirtyTable)
    → IsValid s h
    → Addable s h r
    → Follows att (placed s r ∷ h)
    → IsValid (record (add_log s r) { att = att; dpt = dpt }) (placed s r ∷ h)
unfolding add_log get_size Fits unwritten
add_log-IsValid s h r att dpt valid add follows =
    let s' : LogManager = record (add_log s r) { att = att; dpt = dpt } in
    let r' = placed s r in
    let size = Fits-size r add.fits in
    let fresh : written s r' ≡ false = ground (arith, valid.flushed, valid.small) in
    record {
      small = omega (arith, add.room);
      flushed = ground (arith, valid.flushed, add.room);
      history = (omega (arith, add.room), size, add.fits, add.short, add.prev, valid.history);
      buffer = ground (arith, fresh, valid.buffer, unwritten_same s s' h refl);
      disk = λ q m is. elim m [
        | inl e ↦ absurd (ground (arith, fresh, e, is))
        | inr m ↦ valid.disk q m is
      ];
      active = follows;
    }

-- The transaction was looked up.
pub with_last_ok :
    {A : Type 0} (s : LogManager) (xid : ℕ) (f : ℕ → A) (a : A)
    → with_last s xid f ≡ ok a
    → (prev : ℕ) × (find xid s.att ≡ some prev) × (f prev ≡ a)
unfolding with_last
with_last_ok s xid f a run = elim (Option-cases (find xid s.att)) [
  | inl missing ↦ absurd (ground (arith, missing, run))
  | inr (prev, e) ↦ (prev, e, ground (arith, e, run))
]

module _ (s : LogManager) (h : List LogRecord) (body : Body) (xid : ℕ) (valid : IsValid s h) where
  -- The tables after a record that goes on, and after one that ends.
  pub insert-Follows :
      (prev : ℕ)
      → ends body ≡ false
      → is_checkpoint body ≡ false
      → Follows (insert xid s.next_lsn s.att) (placed s (new_log body xid prev) ∷ h)
  unfolding last
  insert-Follows prev goes plain j user =
      ground (arith, goes, plain, find-insert xid j s.next_lsn s.att, valid.active j user)

  erase-Follows :
      (prev : ℕ)
      → ends body ≡ true
      → is_checkpoint body ≡ false
      → Follows (erase xid s.att) (placed s (new_log body xid prev) ∷ h)
  unfolding last
  erase-Follows prev goes plain j user =
      ground (arith, goes, plain, find-erase xid j s.att, valid.active j user)

  pub skip-Follows :
      (prev : ℕ)
      → (is_checkpoint body ≡ true) ⊎ (xid ≡ ddl_xid)
      → Follows s.att (placed s (new_log body xid prev) ∷ h)
  unfolding last
  skip-Follows prev apart j user = ground (arith, apart, valid.active j user)

-- A record fits, and there is room for it.
pub record Fit (s : LogManager) (r : LogRecord) : Type 0 where
  pub fits : Fits r
  pub room : s.next_lsn + get_size r < 2 ^ 32
  pub short : Short r

module _ (s : LogManager) (h : List LogRecord) (body : Body) (xid : ℕ) (valid : IsValid s h)
    (plain : is_checkpoint body ≡ false) where
  abbrev pub added : ℕ → LogRecord
  added prev = placed s (new_log body xid prev)

  last-Addable :
      (prev : ℕ)
      → find xid s.att ≡ some prev
      → Fit s (new_log body xid prev)
      → Addable s h (new_log body xid prev)
  last-Addable prev found fit = record {
    fits = fit.fits;
    room = fit.room;
    short = fit.short;
    prev = λ c user. ground (arith, valid.active xid user, found);
  }

  pub insert-IsValid :
      (prev : ℕ) (dpt : DirtyTable)
      → ends body ≡ false
      → find xid s.att ≡ some prev
      → Fit s (new_log body xid prev)
      → IsValid
          (record (add_log s (new_log body xid prev)) {
            att = insert xid s.next_lsn s.att;
            dpt = dpt;
          })
          (added prev ∷ h)
  insert-IsValid prev dpt goes found fit =
      add_log-IsValid s h (new_log body xid prev) (insert xid s.next_lsn s.att) dpt valid
        (last-Addable prev found fit) (insert-Follows s h body xid valid prev goes plain)

  -- The record is added, the transaction leaves the table, and the log is flushed.
  abbrev pub left_table : ℕ → LogManager
  left_table prev = record (add_log s (new_log body xid prev)) {
    att = erase xid s.att;
    dpt = s.dpt;
  }

  pub end-Durable :
      (prev : ℕ)
      → ends body ≡ true
      → find xid s.att ≡ some prev
      → Fit s (new_log body xid prev)
      → Durable (left_table prev) (flush (left_table prev) s.next_lsn) s.next_lsn (added prev ∷ h)
  end-Durable prev goes found fit = flush-Durable (left_table prev) s.next_lsn (added prev ∷ h) (
      add_log-IsValid s h (new_log body xid prev) (erase xid s.att) s.dpt valid
        (last-Addable prev found fit) (erase-Follows s h body xid valid prev goes plain))

  pub all_written :
      (prev : ℕ)
      → ends body ≡ true
      → find xid s.att ≡ some prev
      → Fit s (new_log body xid prev)
      → (q : LogRecord) → Has q (added prev ∷ h)
      → written (flush (left_table prev) s.next_lsn) q ≡ true
  all_written prev goes found fit q m = (end-Durable prev goes found fit).reached q m (
      inr (elim m [
        | inl e ↦ omega (arith, ap (λ (x : LogRecord). x.lsn) e)
        | inr m ↦
            let (a, below, c, d) = History-lt s.next_lsn h q valid.history m in omega (arith, below)
      ]))
