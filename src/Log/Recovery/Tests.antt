-- ===== src/Log/Recovery/Tests.antt =====
-- A crash after a checkpoint and the begin of another transaction.
use database_hw.Prelude.{[], ◌∷◌, ◌+◌, ◌≡◌, refl, some, arith}
use database_hw.Types.{null_lsn, null_xid}
use database_hw.Result.{ok}
use database_hw.Bytes.{read, write, le_bytes}
use database_hw.Log.Record.{
  LogRecord, begin, end_checkpoint, body_fields, end_checkpoint_fields, att_fields, dpt_fields,
  get_size,
}
use database_hw.Log.Record.Fields.{fields_bytes}
use database_hw.Log.Record.RoundTrip.{Fits, log_bytes}
use database_hw.Log.File.{LogFile}
use database_hw.Log.Manager.{LogManager, new_log_manager}
use database_hw.Log.Manager.History.{OnDisk, last}
use database_hw.Log.Manager.Append.{Follows}
use database_hw.Log.Recovery.{analyze, analyzed, tables}
use database_hw.Log.Recovery.Rebuilt.{Chain, analyze_all, after, analyze-Follows}

abbrev checkpoint_end : LogRecord
checkpoint_end = record {
  lsn = 26;
  xid = null_xid;
  prev_lsn = null_lsn;
  body = end_checkpoint ((7, 0) ∷ []) [];
}

abbrev first_begin : LogRecord
first_begin = record { lsn = 0; xid = 7; prev_lsn = null_lsn; body = begin }

abbrev later_begin : LogRecord
later_begin = record { lsn = 67; xid = 8; prev_lsn = null_lsn; body = begin }

abbrev crash_file : LogFile
crash_file = record {
  bytes = write (write (λ i. 0) 26 (log_bytes checkpoint_end)) 67 (log_bytes later_begin);
  size = 1048576;
  log_segments = 1;
}

abbrev crashed : LogManager
crashed = new_log_manager crash_file (some 80) (some 13) 0

end-Fits : Fits checkpoint_end
unfolding Fits body_fields end_checkpoint_fields att_fields dpt_fields
end-Fits = ground arith

end-OnDisk : OnDisk crash_file checkpoint_end
unfolding read write log_bytes fields_bytes le_bytes body_fields end_checkpoint_fields att_fields
    dpt_fields
end-OnDisk = refl

begin-OnDisk : OnDisk crash_file later_begin
unfolding read write log_bytes fields_bytes le_bytes body_fields end_checkpoint_fields att_fields
    dpt_fields
begin-OnDisk = refl

crash-Chain : Chain crash_file (13 + 13 + get_size checkpoint_end) 80 (later_begin ∷ [])
unfolding get_size Fits body_fields
crash-Chain = (refl, ground arith, begin-OnDisk, omega arith, refl)

crash-Follows : Follows ((7, 0) ∷ []) (first_begin ∷ [])
unfolding last
crash-Follows j user = ground arith

analyze-Follows_example :
    (analyze 2 crashed
      ≡ some
          (ok (analyzed crashed 80 (analyze_all (tables checkpoint_end.body) (later_begin ∷ [])))))
    × Follows
        (analyze_all (tables checkpoint_end.body) (later_begin ∷ [])).att
        (after (first_begin ∷ []) (later_begin ∷ []))
analyze-Follows_example =
    analyze-Follows crashed 2 80 13 null_xid null_lsn ((7, 0) ∷ []) [] (later_begin ∷ [])
      (first_begin ∷ []) refl refl end-Fits end-OnDisk crash-Chain (omega arith) (omega arith)
      (omega arith) (refl, tt) crash-Follows
