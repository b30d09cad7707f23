-- ===== src/Log/Redo/Order.antt =====
-- The loop of `Redo` ends, and takes every record once, in the order of the log.
use database_hw.Prelude.{
  ℕ, zero, suc, ◌+◌, ◌%◌, ◌^◌, ◌<◌, ◌≤◌, ◌≡◌, sym, ap, ◌∙◌, List, [], ◌∷◌, Bool, true, false, some,
  ltb, length, arith,
}
use database_hw.Result.{ok}
use database_hw.Log.Record.{LogRecord, get_size}
use database_hw.Log.Record.RoundTrip.{Fits-size}
use database_hw.Log.Manager.{LogManager}
use database_hw.Log.Undo.{Pages, read_record, max_log_size}
use database_hw.Log.Undo.Lookup.{read_record_lem}
use database_hw.Log.Recovery.Rebuilt.{Chain, Chain-le}
use database_hw.Log.Redo.{redo_read, redo_step, redo_loop, redo_pages, redo_start}

module _ (s : LogManager) (table_exists : ℕ → Bool) where
  unfoldable pub redo_all : List LogRecord → Pages → Pages
  redo_all [] pages = pages
  redo_all (r ∷ rest) pages = redo_all rest (redo_read s table_exists r pages)

  turn_lem :
      (lsn : ℕ) (r : LogRecord) (pages : Pages)
      → ltb s.flushed_lsn lsn ≡ false
      → read_record s.disk lsn ≡ ok r
      → redo_step s table_exists lsn pages
        ≡ ok ((lsn + get_size r) % 2 ^ 64, redo_read s table_exists r pages)
  unfolding redo_step
  turn_lem lsn r pages read here = ground (arith, read, here)

  module _ (room : s.next_lsn + max_log_size ≤ s.disk.size) (small : s.next_lsn < 2 ^ 32)
      (flushed : s.next_lsn ≤ suc s.flushed_lsn) where
    redo_loop_lem :
        (fuel lsn : ℕ) (rs : List LogRecord) (pages : Pages)
        → Chain s.disk lsn s.next_lsn rs
        → length rs < fuel
        → redo_loop s table_exists fuel lsn pages ≡ some (ok (redo_all rs pages))
    unfolding redo_loop redo_all
    redo_loop_lem zero lsn rs pages chain enough = absurd (omega arith)
    redo_loop_lem (suc n) lsn [] pages chain enough = ground (arith, chain)
    redo_loop_lem (suc n) lsn (r ∷ rest) pages (at, fits, stored, short, more) enough =
        let size = Fits-size r fits in
        let below = Chain-le s.disk (lsn + get_size r) s.next_lsn rest more in
        let got =
          read_record_lem s.disk r fits short (omega (arith, at, size, below, room))
            (omega (arith, at, size, below, small)) stored in
        let here : read_record s.disk lsn ≡ ok r = ap (read_record s.disk) (sym at) ∙ got in
        let going : ltb lsn s.next_lsn ≡ true = ground (arith, size, below) in
        let read : ltb s.flushed_lsn lsn ≡ false = ground (arith, size, below, flushed) in
        let same : (lsn + get_size r) % 2 ^ 64 ≡ lsn + get_size r = omega (arith, below, small) in
        let turn = turn_lem lsn r pages read here in
        ground (arith, going, turn)
        ∙ ap (λ (k : ℕ). redo_loop s table_exists n k (redo_read s table_exists r pages)) same
        ∙ redo_loop_lem n (lsn + get_size r) rest (redo_read s table_exists r pages) more
            (omega arith)

-- Over records that lie in the file, no longer than `MAX_LOG_SIZE`, from where the redo starts up to
-- the next lsn, with all of the log flushed and the file that many bytes longer, `Redo` ends, on fuel
-- for more turns than there are records: each was taken once, in the order of the log.
pub redo_pages-redo_all :
    (s : LogManager) (table_exists : ℕ → Bool) (fuel : ℕ) (rs : List LogRecord) (pages : Pages)
    → Chain s.disk (redo_start s) s.next_lsn rs
    → s.next_lsn + max_log_size ≤ s.disk.size
    → s.next_lsn < 2 ^ 32
    → s.next_lsn ≤ suc s.flushed_lsn
    → length rs < fuel
    → redo_pages s table_exists fuel pages ≡ some (ok (redo_all s table_exists rs pages))
unfolding redo_pages
redo_pages-redo_all s table_exists fuel rs pages chain room small flushed enough =
    redo_loop_lem s table_exists room small flushed fuel (redo_start s) rs pages chain enough
