-- ===== src/Log/Redo/Recover.antt =====
-- `Recover` as a whole: redo in the order of the log, then the rollback of each active transaction.
use database_hw.Prelude.{
  ℕ, ◌+◌, ◌-◌, ◌^◌, ◌<◌, ◌≡◌, ◌≢◌, inl, inr, refl, sym, ◌∙◌, List, [], ◌∷◌, true, some, Has, eq_nat,
  arith,
}
use database_hw.Result.{Result, ok, ◌>>=◌}
use database_hw.Log.Record.{LogRecord, ActiveTable, DirtyTable, end_checkpoint, get_size}
use database_hw.Log.Record.RoundTrip.{Fits, Of}
use database_hw.Log.Manager.{LogManager, ddl_xid}
use database_hw.Log.Manager.History.{
  History, History-lt, IsValid, OnDisk, written, unwritten, pending,
}
use database_hw.Log.Manager.Append.{Follows}
use database_hw.Log.Manager.Room.{Room}
use database_hw.Log.Undo.{Pages, Pool, max_log_size}
use database_hw.Log.Undo.Rollback.{undo_all, evicting}
use database_hw.Log.Recovery.{Analysis, analyzed, tables}
use database_hw.Log.Recovery.Rebuilt.{Chain, Plain, after, analyze_all}

-- What each of the transactions has done is undone, one transaction behind the other, up to the first
-- record whose page cannot be read.
unfoldable pub undo_each : Pool → List LogRecord → ActiveTable → Pages → Result Pages
undo_each pool h [] pages = ok pages
undo_each pool h ((xid, lsn) ∷ att) pages =
    undo_all pool (pending xid h) pages >>= undo_each pool h att

-- The log manager behind the evictions that this makes.
unfoldable pub evicting_each : Pool → List LogRecord → ActiveTable → LogManager → LogManager
evicting_each pool h [] s = s
evicting_each pool h ((xid, lsn) ∷ att) s =
    evicting_each pool h att (evicting pool (pending xid h) s)

-- The transactions of the table, which all have an entry.
abbrev keys : ActiveTable → List ℕ
keys [] = []
keys ((xid, lsn) ∷ att) = xid ∷ keys att

-- No entry is DDL's.
abbrev pub NoDdl : ActiveTable → Type 0
NoDdl [] = Unit {0}
NoDdl ((xid, lsn) ∷ att) = (xid ≢ ddl_xid) × NoDdl att

unwritten-nil :
    (t : LogManager) (h : List LogRecord)
    → ((r : LogRecord) → Has r h → written t r ≡ true)
    → unwritten t h ≡ []
unfolding unwritten
unwritten-nil t [] all = refl
unwritten-nil t (r ∷ h) all =
    ground (arith, all r (inl refl), unwritten-nil t h (λ q m. all q (inr m)))

-- The state behind the analysis agrees with a history that is all in the file.
pub analyzed-IsValid :
    (s : LogManager) (next : ℕ) (a : Analysis) (h : List LogRecord)
    → 0 < next
    → next < 2 ^ 32
    → s.log_buffer ≡ []
    → History next h
    → ((r : LogRecord) → Has r h → OnDisk s.disk r)
    → Follows a.att h
    → IsValid (analyzed s next a).0 h
analyzed-IsValid s next a h some_log small empty history stored follows =
    let t = (analyzed s next a).0 in
    let before : t.flushed_lsn ≡ next - 1 = omega (arith, small, some_log) in
    let all : (r : LogRecord) → Has r h → written t r ≡ true = λ r m.
      let (end, below, fits, short) = History-lt next h r history m in
      ground (arith, before, below, small) in
    record {
      small = small;
      flushed = inr (omega (arith, before, some_log));
      history = history;
      buffer = empty ∙ sym (unwritten-nil t h all);
      disk = λ r m is. stored r m;
      active = follows;
    }

-- What a crash leaves: the file has a history of the log, with a checkpoint in it, which had the last
-- record of each active transaction of the history up to it, and behind the checkpoint records of
-- transactions, no longer than `MAX_LOG_SIZE`; the number of the next lsn and the master record are
-- those of the log and of the checkpoint.
pub record Crashed (s : LogManager) (next lsn xid prev_lsn : ℕ) (att : ActiveTable)
    (dpt : DirtyTable) (rs h : List LogRecord) : Type 0 where
  pub next_lsn_file : s.next_lsn_file ≡ some next
  pub master_record : s.master_record ≡ some lsn
  pub buffer : s.log_buffer ≡ []
  pub room : Room max_log_size next s.disk
  pub small : next < 2 ^ 32
  pub fits : Fits (Of (lsn + 13) xid prev_lsn (end_checkpoint att dpt))
  pub stored : OnDisk s.disk (Of (lsn + 13) xid prev_lsn (end_checkpoint att dpt))
  pub chain :
      Chain s.disk
        (lsn + 13 + get_size (Of (lsn + 13) xid prev_lsn (end_checkpoint att dpt)))
        next
        rs
  pub plain : Plain rs
  pub follows : Follows att h
  pub history : History next (after h rs)
  pub disk : (r : LogRecord) → Has r (after h rs) → OnDisk s.disk r

-- The tables behind the analysis.
abbrev pub analysis : ActiveTable → DirtyTable → List LogRecord → Analysis
analysis att dpt rs = analyze_all (tables (end_checkpoint att dpt)) rs
