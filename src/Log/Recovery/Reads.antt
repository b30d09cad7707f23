-- ===== src/Log/Recovery/Reads.antt =====
-- The analysis reads the checkpoint.
use database_hw.Prelude.{
  ℕ, ◌+◌, ◌-◌, ◌%◌, ◌^◌, ◌<◌, ◌≤◌, ◌≡◌, ap, ap₂, ◌∙◌, List, Bool, true, leb, length, eq_nat,
  if◌then◌else◌, arith,
}
use database_hw.Types.{eq_table_pageid}
use database_hw.Result.{Result, ok, throw, log_read_failed, ◌>>=◌}
use database_hw.Bytes.{Memory, write, read}
use database_hw.Log.Record.{
  LogRecord, ActiveTable, DirtyTable, end_checkpoint, get_size, end_checkpoint_deserialize_from,
}
use database_hw.Log.Record.RoundTrip.{
  Of, Fits, log_bytes, length-log_bytes, stored-end_checkpoint_deserialize_from,
}
use database_hw.Log.File.{LogFile, read_log}
use database_hw.Log.Manager.History.{OnDisk}
use database_hw.Log.Undo.Lookup.{read_copy}
use database_hw.Log.Recovery.{read_array, read_checkpoint}

read_array_lem :
    (disk : LogFile) (lsn count : ℕ)
    → lsn + count ≤ disk.size
    → lsn + count < 2 ^ 32
    → read_array disk lsn count ≡ ok (write (λ i. 0) 0 (read disk.bytes lsn count))
unfolding read_log
read_array_lem disk lsn count inside small =
    let from : lsn % 2 ^ 32 ≡ lsn = omega (arith, small) in
    let many : count % 2 ^ 32 ≡ count = omega (arith, small) in
    let enough : leb (lsn + count) disk.size ≡ true = ground (arith, inside) in
    ap₂
      (λ (l c : ℕ).
        (if leb (l + c) disk.size then ok (read disk.bytes l c) else throw log_read_failed)
        >>= (λ (bytes : List ℕ). ok (write (λ i. 0) 0 bytes)))
      from many
    ∙ ap
        (λ (b : Bool).
          (if b then ok (read disk.bytes lsn count) else throw log_read_failed)
          >>= (λ (bytes : List ℕ). ok (write (λ i. 0) 0 bytes)))
        enough

-- The second half of `read_checkpoint`.
abbrev end_array : LogFile → (next lsn : ℕ) → Result LogRecord
end_array disk next lsn = read_array disk lsn ((next + 2 ^ 64 - lsn) % 2 ^ 64) >>= λ x.
    ok (end_checkpoint_deserialize_from lsn x 1)

pub read_checkpoint_lem :
    (disk : LogFile) (next lsn xid prev_lsn : ℕ) (att : ActiveTable) (dpt : DirtyTable)
    → Fits (Of (lsn + 13) xid prev_lsn (end_checkpoint att dpt))
    → OnDisk disk (Of (lsn + 13) xid prev_lsn (end_checkpoint att dpt))
    → lsn + 13 + get_size (Of (lsn + 13) xid prev_lsn (end_checkpoint att dpt)) ≤ next
    → next ≤ disk.size
    → next < 2 ^ 32
    → read_checkpoint disk next lsn ≡ ok (Of (lsn + 13) xid prev_lsn (end_checkpoint att dpt))
unfolding read_checkpoint read_log
read_checkpoint_lem disk next lsn xid prev_lsn att dpt fits stored inside room small =
    let size = length-log_bytes (lsn + 13) xid prev_lsn (end_checkpoint att dpt) fits in
    let first =
      read_array_lem disk lsn (next - lsn) (omega (arith, inside, room))
        (omega (arith, inside, small)) in
    let second =
      read_array_lem disk (lsn + 13) (next - (lsn + 13)) (omega (arith, inside, room))
        (omega (arith, inside, small)) in
    let begin_count : (next + 2 ^ 64 - lsn) % 2 ^ 64 ≡ next - lsn = omega (arith, inside, small) in
    let end_lsn : (lsn + 13) % 2 ^ 64 ≡ lsn + 13 = omega (arith, inside, small) in
    let end_count : (next + 2 ^ 64 - (lsn + 13)) % 2 ^ 64 ≡ next - (lsn + 13) =
      omega (arith, inside, small) in
    let buf : Memory = write (λ i. 0) 0 (read disk.bytes (lsn + 13) (next - (lsn + 13))) in
    let held =
      read_copy disk.bytes (λ i. 0) (lsn + 13) 0
        (length (log_bytes (Of (lsn + 13) xid prev_lsn (end_checkpoint att dpt))))
        (next - (lsn + 13)) (omega (arith, size, inside))
      ∙ stored in
    ap
      (λ (c : ℕ).
        read_array disk lsn c >>= (λ (b : Memory). end_array disk next ((lsn + 13) % 2 ^ 64)))
      begin_count
    ∙ ap (λ (x : Result Memory). x >>= (λ (b : Memory). end_array disk next ((lsn + 13) % 2 ^ 64)))
        first
    ∙ ap (end_array disk next) end_lsn
    ∙ ap
        (λ (c : ℕ).
          read_array disk (lsn + 13) c
          >>= (λ (x : Memory). ok (end_checkpoint_deserialize_from (lsn + 13) x 1)))
        end_count
    ∙ ap
        (λ (x : Result Memory).
          x >>= (λ (b : Memory). ok (end_checkpoint_deserialize_from (lsn + 13) b 1)))
        second
    ∙ ap ok (stored-end_checkpoint_deserialize_from (lsn + 13) xid prev_lsn att dpt buf 0 fits held)
