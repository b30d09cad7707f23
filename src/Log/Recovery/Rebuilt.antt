-- ===== src/Log/Recovery/Rebuilt.antt =====
-- The analysis reads every record behind the checkpoint, and finds the table of active transactions
-- that the log manager had.
use database_hw.Prelude.{
  ℕ, ◌+◌, ◌%◌, ◌^◌, ◌<◌, ◌≤◌, ◌≡◌, sym, ap, ap₂, ◌∙◌, zero, suc, List, [], ◌∷◌, true, false, Option,
  some, find-insert, find-erase, ltb, length, eq_nat, arith,
}
use database_hw.Types.{eq_table_pageid}
use database_hw.Result.{ok}
use database_hw.Log.Record.{LogRecord, ActiveTable, DirtyTable, end_checkpoint, get_size}
use database_hw.Log.Record.RoundTrip.{Of, Fits, Fits-size}
use database_hw.Log.File.{LogFile}
use database_hw.Log.Manager.{LogManager, first_lsn}
use database_hw.Log.Manager.History.{OnDisk, last, is_checkpoint}
use database_hw.Log.Manager.Append.{Follows}
use database_hw.Log.Undo.{read_record, max_log_size}
use database_hw.Log.Undo.Lookup.{read_record_lem}
use database_hw.Log.Recovery.Reads.{read_checkpoint_lem}
use database_hw.Log.Recovery.{
  analyze_behind, end_analyze, or_else, Analysis, analyze_one, analyze_loop, read_checkpoint,
  analyze, analyzed, tables,
}

-- Records lie in the file one behind the other, the oldest first.
abbrev pub Chain : LogFile → (lsn next : ℕ) → List LogRecord → Type 0
Chain disk lsn next [] = lsn ≡ next
Chain disk lsn next (r ∷ rest) =
    (r.lsn ≡ lsn)
    × Fits r
    × OnDisk disk r
    × (get_size r ≤ max_log_size)
    × Chain disk (lsn + get_size r) next rest

-- No record is a checkpoint's.
abbrev pub Plain : List LogRecord → Type 0
Plain [] = Unit {0}
Plain (r ∷ rest) = (is_checkpoint r.body ≡ false) × Plain rest

unfoldable pub analyze_all : Analysis → List LogRecord → Analysis
analyze_all a [] = a
analyze_all a (r ∷ rest) = analyze_all (analyze_one a r) rest

-- The history that the records make longer.
unfoldable pub after : List LogRecord → List LogRecord → List LogRecord
after h [] = h
after h (r ∷ rest) = after (r ∷ h) rest

pub Chain-le :
    (disk : LogFile) (lsn next : ℕ) (rs : List LogRecord) → Chain disk lsn next rs → lsn ≤ next
Chain-le disk lsn next [] end = omega (arith, end)
Chain-le disk lsn next (r ∷ rest) (at, fits, stored, short, more) =
    omega (arith, Chain-le disk (lsn + get_size r) next rest more)

analyze_loop_lem :
    (fuel : ℕ) (disk : LogFile) (lsn next : ℕ) (rs : List LogRecord) (a : Analysis)
    → Chain disk lsn next rs
    → next + max_log_size ≤ disk.size
    → next < 2 ^ 32
    → length rs < fuel
    → analyze_loop fuel disk next lsn a ≡ some (ok (analyze_all a rs))
unfolding analyze_loop analyze_all
analyze_loop_lem zero disk lsn next rs a chain room small enough = absurd (omega arith)
analyze_loop_lem (suc n) disk lsn next [] a chain room small enough = ground (arith, chain)
analyze_loop_lem (suc n) disk lsn next (r ∷ rest) a (at, fits, stored, short, more) room small
      enough =
    let size = Fits-size r fits in
    let below = Chain-le disk (lsn + get_size r) next rest more in
    let got =
      read_record_lem disk r fits short (omega (arith, at, size, below, room))
        (omega (arith, at, size, below, small)) stored in
    let here : read_record disk lsn ≡ ok r = ap (read_record disk) (sym at) ∙ got in
    let going : ltb lsn next ≡ true = ground (arith, size, below) in
    let same : (lsn + get_size r) % 2 ^ 64 ≡ lsn + get_size r = omega (arith, below, small) in
    ground (arith, going, here)
    ∙ ap (λ (k : ℕ). analyze_loop n disk next k (analyze_one a r)) same
    ∙ analyze_loop_lem n disk (lsn + get_size r) next rest (analyze_one a r) more room small
        (omega arith)

analyze_one-Follows :
    (r : LogRecord) (h : List LogRecord) (a : Analysis)
    → is_checkpoint r.body ≡ false
    → Follows a.att h
    → Follows (analyze_one a r).att (r ∷ h)
unfolding analyze_one last
analyze_one-Follows r h a plain follows j user =
    ground (arith, plain, follows j user, find-insert r.xid j r.lsn a.att, find-erase r.xid j a.att)

-- The table of active transactions follows the history, record by record.
analyze_all-Follows :
    (disk : LogFile) (lsn next : ℕ) (rs h : List LogRecord) (a : Analysis)
    → Chain disk lsn next rs
    → Plain rs
    → Follows a.att h
    → Follows (analyze_all a rs).att (after h rs)
unfolding analyze_all after
analyze_all-Follows disk lsn next [] h a chain plain follows = follows
analyze_all-Follows disk lsn next (r ∷ rest) h a (at, fits, stored, short, more) plain follows =
    analyze_all-Follows disk (lsn + get_size r) next rest (r ∷ h) (analyze_one a r) more plain.1
      (analyze_one-Follows r h a plain.0 follows)

-- When the files and the last checkpoint are in the log as `Checkpoint` and `Flush` leave them, and
-- records of transactions, no longer than `MAX_LOG_SIZE`, lie behind it in a file that reaches as
-- many bytes further, `Analyze` ends, on fuel for more turns than there are records, with the tables
-- that these records make of the checkpoint's, read in their order. If the checkpoint had the last
-- record of each active transaction, then so has the result.
pub analyze-Follows :
    (s : LogManager) (fuel next lsn xid prev_lsn : ℕ) (att : ActiveTable) (dpt : DirtyTable)
    (rs h : List LogRecord)
    → s.next_lsn_file ≡ some next
    → s.master_record ≡ some lsn
    → Fits (Of (lsn + 13) xid prev_lsn (end_checkpoint att dpt))
    → OnDisk s.disk (Of (lsn + 13) xid prev_lsn (end_checkpoint att dpt))
    → Chain s.disk
        (lsn + 13 + get_size (Of (lsn + 13) xid prev_lsn (end_checkpoint att dpt)))
        next
        rs
    → next + max_log_size ≤ s.disk.size
    → next < 2 ^ 32
    → length rs < fuel
    → Plain rs
    → Follows att h
    → (analyze fuel s
        ≡ some (ok (analyzed s next (analyze_all (tables (end_checkpoint att dpt)) rs))))
      × Follows (analyze_all (tables (end_checkpoint att dpt)) rs).att (after h rs)
unfolding analyze
analyze-Follows s fuel next lsn xid prev_lsn att dpt rs h next_file master fits stored chain room
      small enough plain follows =
    let r = Of (lsn + 13) xid prev_lsn (end_checkpoint att dpt) in
    let from = lsn + 13 + get_size r in
    let below = Chain-le s.disk from next rs chain in
    let got =
      read_checkpoint_lem s.disk next lsn xid prev_lsn att dpt fits stored below
        (omega (arith, room)) small in
    let same : (lsn + 13 + get_size r) % 2 ^ 64 ≡ from = omega (arith, below, small) in
    let run =
      analyze_loop_lem fuel s.disk from next rs (tables (end_checkpoint att dpt)) chain room small
        enough in
    (
      ap₂ (λ (n l : ℕ). analyze_behind fuel s n (read_checkpoint s.disk n l))
            (ap (λ (o : Option ℕ). or_else o first_lsn) next_file)
            (ap (λ (o : Option ℕ). or_else o 0) master)
          ∙ ap (analyze_behind fuel s next) got
          ∙ ap
              (λ (k : ℕ).
                end_analyze s next
                  (analyze_loop fuel s.disk next k (tables (end_checkpoint att dpt))))
              same
          ∙ ap (end_analyze s next) run,
      analyze_all-Follows s.disk from next rs h (tables (end_checkpoint att dpt)) chain plain
          follows,
    )
