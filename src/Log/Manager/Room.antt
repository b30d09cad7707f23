-- ===== src/Log/Manager/Room.antt =====
-- The log file has room behind the last record, also after flushes and evictions.
use database_hw.Prelude.{
  ℕ, ◌+◌, ◌*◌, ◌^◌, ◌<◌, ◌≤◌, ◌≡◌, ◌≢◌, refl, subst, inl, inr, List, [], ◌∷◌, ◌++◌, ◌⊎◌, Bool, true,
  false, if◌then◌else◌, Has, arith,
}
use database_hw.Types.{null_lsn}
use database_hw.Bytes.Laws.{length-read}
use database_hw.Log.Record.{LogRecord, get_size, serialize_to}
use database_hw.Log.File.{LogFile, write_log, log_segment_size}
use database_hw.Log.Manager.{
  LogManager, FlushRun, flush, flush_loop, flush_one, no_flush, stays, write_record, flush_page,
}
use database_hw.Log.Manager.History.{History-lt, IsValid, written, unwritten}
use database_hw.Log.Manager.Valid.{flush-Durable}
use database_hw.Log.Manager.Tables.{flush_page-IsValid}

-- The segments of the file reach `more` bytes behind a number.
abbrev pub Room : (more next : ℕ) → LogFile → Type 0
Room more next f =
    (next + more ≤ f.log_segments * log_segment_size) × (f.log_segments * log_segment_size ≤ f.size)

write_record-Room :
    (more next : ℕ) (f : LogFile) (r : LogRecord)
    → next < 2 ^ 32
    → r.lsn + get_size r ≤ next
    → Room more next f
    → Room more next (write_record f r)
unfolding write_log
write_record-Room more next f r small end (inside, filled) =
    let size = length-read (serialize_to r (λ i. 0) 0).0 0 (get_size r) in
    ground (arith, size, small, end, inside, filled)

if-either : {A : Type 0} (P : A → Type 0) (b : Bool) (x y : A) → P x → P y → P (if b then x else y)
if-either P true x y p q = p
if-either P false x y p q = q

flush_loop-Room :
    (more next lsn : ℕ) (rs : List LogRecord) (run : FlushRun)
    → next < 2 ^ 32
    → ((r : LogRecord) → Has r rs → r.lsn + get_size r ≤ next)
    → Room more next run.file
    → Room more next (flush_loop lsn rs run).file
unfolding flush_loop
flush_loop-Room more next lsn [] run small ends room = room
flush_loop-Room more next lsn (r ∷ rest) run small ends room =
    let one = write_record-Room more next run.file r small (ends r (inl refl)) room in
    let kept = record run { kept = run.kept ++ r ∷ [] } in
    if-either (λ k. Room more next (flush_loop lsn rest k).file) (stays lsn r) kept
      (flush_one run r) (flush_loop-Room more next lsn rest kept small (λ q m. ends q (inr m)) room)
      (flush_loop-Room more next lsn rest (flush_one run r) small (λ q m. ends q (inr m)) one)

Has-append : (r q : LogRecord) (xs : List LogRecord) → Has r (xs ++ q ∷ []) → Has r (q ∷ xs)
Has-append r q [] m = m
Has-append r q (x ∷ xs) (inl e) = inr (inl e)
Has-append r q (x ∷ xs) (inr m) = elim (Has-append r q xs m) [ inl e ↦ inl e | inr n ↦ inr (inr n) ]

unwritten-Has :
    (s : LogManager) (h : List LogRecord) (r : LogRecord) → Has r (unwritten s h) → Has r h
unfolding unwritten
unwritten-Has s [] r m = m
unwritten-Has s (q ∷ h) r m =
    let earlier = unwritten s h in
    let split =
      if-either (λ l. Has r l → (r ≡ q) ⊎ Has r earlier) (written s q) earlier (earlier ++ q ∷ [])
        (λ n. inr n) (Has-append r q earlier) in
    elim (split m) [ inl e ↦ inl e | inr n ↦ inr (unwritten-Has s h r n) ]

-- What a rollback needs of the log manager: it is valid, something has been flushed, and there is
-- room behind the last record.
pub record Ready (more : ℕ) (s : LogManager) (h : List LogRecord) : Type 0 where
  pub valid : IsValid s h
  pub started : s.flushed_lsn ≢ null_lsn
  pub room : Room more s.next_lsn s.disk

pub flush_page-Ready :
    (more : ℕ) (s : LogManager) (h : List LogRecord) (table_oid page_id page_lsn : ℕ)
    → Ready more s h
    → Ready more (flush_page s table_oid page_id page_lsn) h
unfolding flush_page flush
flush_page-Ready more s h table_oid page_id page_lsn ready =
    let valid = ready.valid in
    record {
      valid = flush_page-IsValid s h table_oid page_id page_lsn valid;
      started = (flush-Durable s page_lsn h valid).started ready.started;
      room =
          flush_loop-Room more s.next_lsn page_lsn s.log_buffer (no_flush s.disk) valid.small
            (λ r m.
              (History-lt s.next_lsn h r valid.history
                (unwritten-Has s h r (subst (Has r) valid.buffer m))).0)
            ready.room;
    }
