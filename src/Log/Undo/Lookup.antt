-- ===== src/Log/Undo/Lookup.antt =====
-- A log record is found again by its lsn, in the buffer or in the file.
use database_hw.Prelude.{
  ℕ, ◌+◌, ◌%◌, ◌^◌, ◌<◌, ◌≤◌, ◌≡◌, refl, sym, subst, ap, ap₂, ◌∙◌, inl, inr, zero, suc, List, [],
  ◌∷◌, ◌++◌, Bool, true, false, none, some, leb, length, Has, if◌then◌else◌, arith,
}
use database_hw.Result.{ok, throw, log_read_failed, ◌>>=◌}
use database_hw.Bytes.{Memory, write, read}
use database_hw.Bytes.Laws.{Holds, read_same}
use database_hw.Log.Record.{LogRecord, get_size, deserialize_from}
use database_hw.Log.Record.RoundTrip.{Fits, log_bytes, length-log_bytes, stored-deserialize_from}
use database_hw.Log.File.{LogFile, read_log}
use database_hw.Log.Manager.{LogManager}
use database_hw.Log.Manager.History.{History, History-lt, OnDisk, written, unwritten}
use database_hw.Log.Undo.{find_log, read_record, max_log_size}

find_log-append :
    (lsn : ℕ) (xs ys : List LogRecord)
    → find_log lsn (xs ++ ys)
      ≡ (elim (find_log lsn xs) [ none ↦ find_log lsn ys | some r ↦ some r ])
unfolding find_log
find_log-append lsn [] ys = refl
find_log-append lsn (x ∷ xs) ys = ground (arith, find_log-append lsn xs ys)

find_none :
    (s : LogManager) (lsn : ℕ) (h : List LogRecord)
    → ((r : LogRecord) → Has r h → r.lsn < lsn)
    → find_log lsn (unwritten s h) ≡ none
unfolding find_log unwritten
find_none s lsn [] below = refl
find_none s lsn (r ∷ h) below =
    let before = find_none s lsn h (λ q m. below q (inr m)) in
    ground (arith, before, below r (inl refl), find_log-append lsn (unwritten s h) (r ∷ []))

pub find_unwritten :
    (s : LogManager) (next : ℕ) (h : List LogRecord) (r : LogRecord)
    → History next h
    → Has r h
    → written s r ≡ false
    → find_log r.lsn (unwritten s h) ≡ some r
unfolding find_log unwritten
find_unwritten s next [] r history m fresh = absurd m
find_unwritten s next (q ∷ h) r (at, size, fits, short, prev, history) (inl e) fresh =
    let before = find_none s q.lsn h (λ x m. (History-lt q.lsn h x history m).1) in
    subst (λ (x : LogRecord). written s x ≡ false → find_log x.lsn (unwritten s (q ∷ h)) ≡ some x)
      (sym e) (λ f. ground (arith, f, before, find_log-append q.lsn (unwritten s h) (q ∷ []))) fresh
find_unwritten s next (q ∷ h) r (at, size, fits, short, prev, history) (inr m) fresh =
    let before = find_unwritten s q.lsn h r history m fresh in
    ground (arith, find_log-append r.lsn (unwritten s h) (q ∷ []))

-- The first bytes of a copy.
pub read_copy :
    (m m' : Memory) (at to n k : ℕ) → n ≤ k → read (write m' to (read m at k)) to n ≡ read m at n
unfolding read write
read_copy m m' at to zero k few = refl
read_copy m m' at to (suc n) zero few = absurd (omega arith)
read_copy m m' at to (suc n) (suc k) few = ap₂ ◌∷◌ (ground arith) (
    read_same _ (write m' (suc to) (read m (suc at) k)) (suc to) n (λ i lo hi. ground arith)
    ∙ read_copy m m' (suc at) (suc to) n k (omega arith))

pub read_record_lem :
    (disk : LogFile) (r : LogRecord)
    → Fits r
    → get_size r ≤ max_log_size
    → r.lsn + max_log_size ≤ disk.size
    → r.lsn < 2 ^ 32
    → OnDisk disk r
    → read_record disk r.lsn ≡ ok r
unfolding read_record read_log
read_record_lem disk r fits short inside small stored =
    let bytes = read disk.bytes r.lsn max_log_size in
    let size = length-log_bytes r.lsn r.xid r.prev_lsn r.body fits in
    let held : Holds (write (λ i. 0) 0 bytes) 0 (log_bytes r) =
      read_copy disk.bytes (λ i. 0) r.lsn 0 (length (log_bytes r)) max_log_size
        (omega (arith, size, short))
      ∙ stored in
    let parsed =
      stored-deserialize_from r.lsn r.xid r.prev_lsn r.body (write (λ i. 0) 0 bytes) 0 fits held in
    let enough : leb (r.lsn + 269) disk.size ≡ true = ground (arith, inside) in
    let same : r.lsn % 2 ^ 32 ≡ r.lsn = omega (arith, small) in
    ap
      (λ (from : ℕ).
        (if leb (from + 269) disk.size
          then ok (read disk.bytes from 269)
          else throw log_read_failed)
        >>= (λ (b : List ℕ). deserialize_from r.lsn (write (λ i. 0) 0 b) 0))
      same
    ∙ ap
        (λ (b : Bool).
          (if b then ok bytes else throw log_read_failed)
          >>= (λ (b : List ℕ). deserialize_from r.lsn (write (λ i. 0) 0 b) 0))
        enough
    ∙ parsed
