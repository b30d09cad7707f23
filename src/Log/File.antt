-- ===== src/Log/File.antt =====
-- src/storage/disk.cpp: the log file, which grows by segments. Offsets into it have 32 bits.
use database_hw.Prelude.{ℕ, ◌+◌, ◌*◌, ◌%◌, ◌^◌, List, length, ltb, leb, if◌then◌else◌}
use database_hw.Result.{Result, ok, throw, log_read_failed}
use database_hw.Bytes.{Memory, write, read}

abbrev pub log_segment_size : ℕ
log_segment_size = 2 ^ 20

pub record LogFile : Type 0 where
  pub bytes : Memory
  pub size : ℕ
  pub log_segments : ℕ

-- A read behind the end of the file throws.
unfoldable pub read_log : LogFile → ℕ → ℕ → Result (List ℕ)
read_log f offset count =
    if leb (offset % 2 ^ 32 + count % 2 ^ 32) f.size
    then ok (read f.bytes (offset % 2 ^ 32) (count % 2 ^ 32))
    else throw log_read_failed

-- The segment that a write needs more is added first; a write behind it makes the file longer.
unfoldable pub write_log : LogFile → ℕ → List ℕ → LogFile
write_log f offset log =
    let from = offset % 2 ^ 32 in
    let over = ltb (f.log_segments * log_segment_size) ((from + length log) % 2 ^ 32) in
    let segments = if over then (f.log_segments + 1) % 2 ^ 32 else f.log_segments in
    let size = if over then segments * log_segment_size else f.size in
    record {
      bytes = write f.bytes from log;
      size = if ltb size (from + length log) then from + length log else size;
      log_segments = segments;
    }
