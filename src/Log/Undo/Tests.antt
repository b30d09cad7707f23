-- ===== src/Log/Undo/Tests.antt =====
-- A transaction that has deleted a record is rolled back: its first record is in the file by then,
-- the other in the buffer.
use database_hw.Prelude.{
  find, length, eq_nat, nat_eq, not, if◌then◌else◌, Bool, [], ◌∷◌, ◌≡◌, ◌<◌, inl, refl, none, some,
  arith,
}
use database_hw.Types.{null_lsn, null_page_id}
use database_hw.Bytes.{read}
use database_hw.Result.{throw, page_read_failed}
use database_hw.Log.Record.{
  LogRecord, begin, deletion, new_page, body_fields, deletion_fields, get_size,
}
use database_hw.Log.Record.RoundTrip.{Fits}
use database_hw.Log.File.{write_log}
use database_hw.Log.Manager.{LogManager, flush, flush_loop, page_of}
use database_hw.Log.Manager.Room.{Room, Ready}
use database_hw.Log.Manager.History.{History, IsValid, unwritten, last, pending}
use database_hw.Log.Manager.Valid.{flush-Durable}
use database_hw.Log.Undo.{Pages, Pool, undo, undo_new_page, rollback}
use database_hw.Log.Undo.Rollback.{undo_all, evicting, behind, rollback-undo_all}

abbrev deleted : LogRecord
deleted = record { lsn = 13; xid = 1; prev_lsn = 0; body = deletion 10000 0 0 }

abbrev started : LogRecord
started = record { lsn = 0; xid = 1; prev_lsn = null_lsn; body = begin }

abbrev logged : LogManager
logged = record {
  att = (1, 13) ∷ [];
  dpt = (record { table_oid = 10000; page_id = 0 }, 13) ∷ [];
  next_lsn = 36;
  flushed_lsn = null_lsn;
  log_buffer = started ∷ deleted ∷ [];
  disk = record { bytes = λ i. 0; size = 1048576; log_segments = 1 };
  next_lsn_file = none;
  master_record = none;
}

started-History : History 13 (started ∷ [])
unfolding Fits body_fields get_size last
started-History = (refl, omega arith, ground arith, λ p. omega arith, λ p u. refl, tt)

logged-IsValid : IsValid logged (deleted ∷ started ∷ [])
unfolding Fits body_fields deletion_fields get_size unwritten last
logged-IsValid = record {
  small = omega arith;
  flushed = inl refl;
  history = (refl, omega arith, ground arith, λ p. omega arith, λ p u. refl, started-History);
  buffer = refl;
  disk = λ r m is. absurd (ground arith);
  active = λ xid user. ground arith;
}

abbrev half_flushed : LogManager
half_flushed = flush logged 0

abbrev some_pages : Pages
some_pages = λ k. record { bytes = λ i. 0; dirty = Bool.false }

half_flushed-lsn : half_flushed.flushed_lsn ≡ 0
unfolding flush flush_loop
half_flushed-lsn = refl

half_flushed-Room : Room 269 half_flushed.next_lsn half_flushed.disk
unfolding flush flush_loop write_log get_size read
half_flushed-Room = (omega arith, omega arith)

half_flushed-Ready : Ready 269 half_flushed (deleted ∷ started ∷ [])
half_flushed-Ready = record {
  valid = (flush-Durable logged 0 (deleted ∷ started ∷ []) logged-IsValid).valid;
  started = λ e. ground (arith, e, half_flushed-lsn);
  room = half_flushed-Room;
}

half_flushed-active : find 1 half_flushed.att ≡ some 13
unfolding flush
half_flushed-active = refl

two_records : length (pending 1 (deleted ∷ started ∷ [])) < 3
unfolding pending
two_records = omega arith

-- Every page but a null one is in its file; the deletion's page takes the frame of another one.
abbrev pool : Pool
pool = record {
  readable = λ k. not (nat_eq k.page_id null_page_id);
  evicted = λ r. if nat_eq r.lsn 13 then (page_of 10000 1, 13) ∷ [] else [];
}

rollback-undo_all_example :
    (rollback 3 pool half_flushed 1 some_pages
      ≡ some (
          behind
            (evicting pool (pending 1 (deleted ∷ started ∷ [])) half_flushed)
            (undo_all pool (pending 1 (deleted ∷ started ∷ [])) some_pages)))
    × Ready 269
        (evicting pool (pending 1 (deleted ∷ started ∷ [])) half_flushed)
        (deleted ∷ started ∷ [])
rollback-undo_all_example =
    rollback-undo_all pool half_flushed (deleted ∷ started ∷ []) 1 13 3 some_pages
      half_flushed-Ready (λ e. omega (arith, e)) half_flushed-active two_records

-- The record of a table's first page has no page before it: its `Undo` throws.
abbrev first_page : LogRecord
first_page = record { lsn = 13; xid = 1; prev_lsn = 0; body = new_page 10000 null_page_id 0 }

undo-first_page : undo pool first_page some_pages ≡ throw page_read_failed
unfolding undo undo_new_page
undo-first_page = refl
