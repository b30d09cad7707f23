-- ===== src/Log/Record/Tests.antt =====
-- A checkpoint's record with both tables, and an insertion, written and read.
use database_hw.Prelude.{ℕ, [], ◌∷◌, ◌+◌, ◌≡◌, ◌≤◌, ◌<◌, ◌⊎◌, refl, arith}
use database_hw.Result.{ok}
use database_hw.Bytes.{Memory, of_le, read, write, le_bytes}
use database_hw.Log.Record.{
  LogRecord, put_fields, body_fields, insertion_fields, end_checkpoint_fields, att_fields,
  dpt_fields, insertion_deserialize_from, insertion, end_checkpoint, get_size, serialize_to,
  deserialize_from,
}
use database_hw.Log.Record.RoundTrip.{Fits, serialize_to-deserialize_from_log}

abbrev zeros : Memory
zeros = λ i. 0

abbrev some_insertion : LogRecord
some_insertion = record {
  lsn = 40;
  xid = 7;
  prev_lsn = 13;
  body = insertion 10000 0 2 200 3 (5 ∷ 6 ∷ 7 ∷ []);
}

abbrev some_checkpoint : LogRecord
some_checkpoint = record {
  lsn = 13;
  xid = 4294967295;
  prev_lsn = 18446744073709551615;
  body =
      end_checkpoint ((7, 0) ∷ (8, 300) ∷ [])
        ((record { table_oid = 10000; page_id = 1 }, 70) ∷ []);
}

insertion-run : deserialize_from 40 (serialize_to some_insertion zeros 40).0 40 ≡ ok some_insertion
unfolding deserialize_from serialize_to of_le read write put_fields body_fields insertion_fields
    le_bytes insertion_deserialize_from
insertion-run = refl

some_checkpoint-Fits : Fits some_checkpoint
unfolding Fits body_fields att_fields dpt_fields end_checkpoint_fields
some_checkpoint-Fits = ground arith

serialize_to-deserialize_from_log_example :
    (deserialize_from 13 (serialize_to some_checkpoint zeros 13).0 13 ≡ ok some_checkpoint)
    × ((serialize_to some_checkpoint zeros 13).1 ≡ 13 + get_size some_checkpoint)
    × ((i : ℕ)
        → (i < 13) ⊎ (13 + get_size some_checkpoint ≤ i)
        → (serialize_to some_checkpoint zeros 13).0 i ≡ zeros i)
serialize_to-deserialize_from_log_example =
    serialize_to-deserialize_from_log some_checkpoint zeros 13 some_checkpoint-Fits
