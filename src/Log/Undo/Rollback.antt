-- ===== src/Log/Undo/Rollback.antt =====
-- `Rollback` undoes what the transaction has done, the newest first, and ends.
use database_hw.Prelude.{
  ℕ, ◌<◌, ◌≡◌, ◌≢◌, refl, sym, ap, ◌∙◌, inl, inr, zero, suc, List, [], ◌∷◌, false, Bool-cases,
  Option, some, find, nat_eq, length, Has, eq_nat, arith,
}
use database_hw.Types.{TablePageid, null_lsn}
use database_hw.Result.{Result, ok, throw, undefined, ◌>>=◌}
use database_hw.Log.Record.{LogRecord}
use database_hw.Log.Manager.{LogManager, flush_page, ddl_xid}
use database_hw.Log.Manager.History.{
  History, History-lt, written, last, pending, lsn_of, belongs, ends, is_checkpoint,
}
use database_hw.Log.Manager.Room.{Ready, flush_page-Ready}
use database_hw.Log.Undo.{
  Pages, Pool, undo, undo_record, flush_evicted, max_log_size, rollback_step, rollback_loop,
  rollback,
}
use database_hw.Log.Undo.Lookup.{find_unwritten, read_record_lem}

-- The records undone on the pages, up to the first whose page cannot be read.
unfoldable pub undo_all : Pool → List LogRecord → Pages → Result Pages
undo_all pool [] pages = ok pages
undo_all pool (r ∷ rest) pages = undo pool r pages >>= undo_all pool rest

-- The log manager behind the evictions that the records make.
unfoldable pub evicting : Pool → List LogRecord → LogManager → LogManager
evicting pool [] s = s
evicting pool (r ∷ rest) s = evicting pool rest (flush_evicted s (pool.evicted r))

-- What `Rollback` answers with: the exception, or the pages and the log manager.
abbrev pub behind : LogManager → Result Pages → Result (LogManager × Pages)
behind s undone = undone >>= λ p. ok (s, p)

flush_evicted-Ready :
    (s : LogManager) (h : List LogRecord) (evicted : List (TablePageid × ℕ))
    → Ready max_log_size s h
    → Ready max_log_size (flush_evicted s evicted) h
unfolding flush_evicted
flush_evicted-Ready s h [] ready = ready
flush_evicted-Ready s h ((k, page_lsn) ∷ rest) ready =
    flush_evicted-Ready (flush_page s k.table_oid k.page_id page_lsn) h rest
      (flush_page-Ready max_log_size s h k.table_oid k.page_id page_lsn ready)

pub evicting-Ready :
    (pool : Pool) (rs : List LogRecord) (s : LogManager) (h : List LogRecord)
    → Ready max_log_size s h
    → Ready max_log_size (evicting pool rs s) h
unfolding evicting
evicting-Ready pool [] s h ready = ready
evicting-Ready pool (r ∷ rest) s h ready =
    evicting-Ready pool rest (flush_evicted s (pool.evicted r)) h
      (flush_evicted-Ready s h (pool.evicted r) ready)

module _ (pool : Pool) (whole : List LogRecord) where
  -- The turn at a record of the history undoes it and goes to the one before.
  step_lem :
      (s : LogManager) (r : LogRecord) (pages : Pages)
      → Ready max_log_size s whole
      → Has r whole
      → is_checkpoint r.body ≡ false
      → rollback_step pool s r.lsn pages ≡ undo_record pool s r pages
  unfolding rollback_step
  step_lem s r pages ready m plain =
      let valid = ready.valid in
      let started = ready.started in
      let (inside, filled) = ready.room in
      let (end, below, fits, short) = History-lt s.next_lsn whole r valid.history m in
      elim (Bool-cases (written s r)) [
        | inl is ↦
            let got =
              read_record_lem s.disk r fits (short plain) (omega (arith, below, inside, filled))
                (omega (arith, below, valid.small)) (valid.disk r m is) in
            ground (arith, is, started, got)
        | inr fresh ↦
            let got = find_unwritten s s.next_lsn whole r valid.history m fresh in
            ground (arith, fresh, started, got, valid.buffer)
      ]

  -- A turn that throws ends the loop, and one that returns goes on behind the evictions.
  turn_lem :
      (n : ℕ) (s : LogManager) (r : LogRecord) (pages : Pages)
      → Ready max_log_size s whole
      → Has r whole
      → is_checkpoint r.body ≡ false
      → rollback_loop (suc n) pool s r.lsn pages ≡ (elim (undo pool r pages) [
        | ok undone ↦ rollback_loop n pool (flush_evicted s (pool.evicted r)) r.prev_lsn undone
        | throw e ↦ some (throw e)
        | undefined ↦ some undefined
      ])
  unfolding rollback_loop undo_record
  turn_lem n s r pages ready m plain =
      let valid = ready.valid in
      let (end, below, fits, short) = History-lt s.next_lsn whole r valid.history m in
      let other : nat_eq r.lsn null_lsn ≡ false = ground (arith, below, valid.small) in
      let step = step_lem s r pages ready m plain in ground (arith, other, step)

  module _ (xid : ℕ) (user : xid ≢ ddl_xid) where
    loop_lem :
        (fuel next : ℕ) (s : LogManager) (h : List LogRecord) (pages : Pages)
        → Ready max_log_size s whole
        → History next h
        → ((r : LogRecord) → Has r h → Has r whole)
        → length (pending xid h) < fuel
        → rollback_loop fuel pool s (lsn_of (last xid h)) pages
          ≡ some (behind (evicting pool (pending xid h) s) (undo_all pool (pending xid h) pages))
    unfolding rollback_loop last pending undo_all evicting
    loop_lem zero next s h pages ready history sub enough = absurd (omega arith)
    loop_lem (suc n) next s [] pages ready history sub enough = refl
    loop_lem (suc n) next s (r ∷ h) pages ready (at, size, fits, short, prev, history) sub enough =
        elim (Bool-cases (belongs xid r)) [
          | inl is ↦ elim (Bool-cases (ends r.body)) [
            | inl e ↦ ground (arith, is, e)
            | inr e ↦
                let plain : is_checkpoint r.body ≡ false = ground (arith, is) in
                let own : r.xid ≡ xid = ground (arith, is) in
                let l : last xid (r ∷ h) ≡ some r.lsn = ground (arith, is, e) in
                let p : pending xid (r ∷ h) ≡ r ∷ pending xid h = ground (arith, is, e) in
                let before : r.prev_lsn ≡ lsn_of (last xid h) =
                  prev plain (λ d. user (sym own ∙ d)) ∙ ap (λ (x : ℕ). lsn_of (last x h)) own in
                let t = flush_evicted s (pool.evicted r) in
                let rest = λ (undone : Pages).
                  ap (λ (lsn : ℕ). rollback_loop n pool t lsn undone) before
                  ∙ loop_lem n r.lsn t h undone (flush_evicted-Ready s whole (pool.evicted r) ready)
                      history (λ q m. sub q (inr m)) (omega (arith, enough, ap length p)) in
                ap (λ (o : Option ℕ). rollback_loop (suc n) pool s (lsn_of o) pages) l
                ∙ turn_lem n s r pages ready (sub r (inl refl)) plain
                ∙ go_on n r t (pending xid h) (undo pool r pages) rest
                ∙ ap
                    (λ (rs : List LogRecord).
                      some (behind (evicting pool rs s) (undo_all pool rs pages)))
                    (sym p)
          ]
          | inr is ↦
              let l : last xid (r ∷ h) ≡ last xid h = ground (arith, is) in
              let p : pending xid (r ∷ h) ≡ pending xid h = ground (arith, is) in
              ap (λ (o : Option ℕ). rollback_loop (suc n) pool s (lsn_of o) pages) l
              ∙ loop_lem (suc n) r.lsn s h pages ready history (λ q m. sub q (inr m))
                  (omega (arith, enough, ap length p))
              ∙ ap
                  (λ (rs : List LogRecord).
                    some (behind (evicting pool rs s) (undo_all pool rs pages)))
                  (sym p)
        ]
      where
        go_on :
            (n : ℕ) (r : LogRecord) (t : LogManager) (rs : List LogRecord) (first : Result Pages)
            → ((undone : Pages)
                → rollback_loop n pool t r.prev_lsn undone
                  ≡ some (behind (evicting pool rs t) (undo_all pool rs undone)))
            → (elim first [
              | ok undone ↦ rollback_loop n pool t r.prev_lsn undone
              | throw e ↦ some (throw e)
              | undefined ↦ some undefined
            ])
              ≡ some (behind (evicting pool rs t) (first >>= undo_all pool rs))
        go_on n r t rs (ok undone) rest = rest undone
        go_on n r t rs (throw e) rest = refl
        go_on n r t rs undefined rest = refl

-- For an active transaction other than DDL's, in a log manager that agrees with a history, once
-- something has been flushed and the segments of the log file reach `MAX_LOG_SIZE` bytes behind the
-- last record, `Rollback` ends, on fuel for more turns than the transaction has records, whatever
-- pages can be read and whatever pages are evicted. It answers with the exception of the first of the
-- transaction's records, from the newest on, a page of which cannot be read; when there is none, it
-- has undone all of them, the newest first, and the log manager is the one behind the flushes of the
-- evicted pages, which still agrees with the history.
pub rollback-undo_all :
    (pool : Pool) (s : LogManager) (h : List LogRecord) (xid lsn fuel : ℕ) (pages : Pages)
    → Ready max_log_size s h
    → xid ≢ ddl_xid
    → find xid s.att ≡ some lsn
    → length (pending xid h) < fuel
    → (rollback fuel pool s xid pages
        ≡ some (behind (evicting pool (pending xid h) s) (undo_all pool (pending xid h) pages)))
      × Ready max_log_size (evicting pool (pending xid h) s) h
unfolding rollback
rollback-undo_all pool s h xid lsn fuel pages ready user found enough =
    let valid = ready.valid in
    let known : last xid h ≡ some lsn = sym (valid.active xid user) ∙ found in
    let run =
      ap (λ (o : Option ℕ). rollback_loop fuel pool s (lsn_of o) pages) (sym known)
      ∙ loop_lem pool h xid user fuel s.next_lsn s h pages ready valid.history (λ r m. m) enough in
    (ground (arith, found, run), evicting-Ready pool (pending xid h) s h ready)
