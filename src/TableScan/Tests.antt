-- ===== src/TableScan/Tests.antt =====
-- A table of one page, with a record and a deleted record, and the scan of it.
use mathlib.Core.List.{flatten}
use database_hw.Prelude.{ℕ, ◌≡◌, sym, refl, false, List, [], ◌∷◌, ◌++◌}
use database_hw.Result.{ok}
use database_hw.Bytes.{write, read, of_le}
use database_hw.Header
use database_hw.Bitmap
use database_hw.Value
use database_hw.TypeUtil.{is_string}
use database_hw.Record
use database_hw.Record.{Record}
use database_hw.Record.Tests.{stored, columns, blank}
use database_hw.TablePage.{Page, get_record, get_record_count}
use database_hw.Visibility.{read_committed, can_get, can_get_read_committed}
use database_hw.Log.Undo.{Pages}
use database_hw.TableScan.{read_at}
use database_hw.TableScan.Rows.{Scans, visible}
use database_hw.TableScan.Chain.{place, Chain, null, linked, get_next_record-Scans}

-- A row of the values of `stored`, and its bytes: the transaction that deleted it is in the header.
abbrev row_bytes : List ℕ → List ℕ
row_bytes xmax =
    (0 ∷ 4 ∷ 0 ∷ 0 ∷ 0 ∷ []) ++ (xmax ++ (1 ∷ 0 ∷ 0 ∷ 0 ∷ 2 ∷ 7 ∷ 0 ∷ 0 ∷ 0 ∷ 2 ∷ 0 ∷ 97 ∷ 98 ∷ []))

abbrev two_rows : Page
two_rows = record {
  bytes =
      write
        (write
          (write blank 8
            (255 ∷ 255 ∷ 255 ∷ 255 ∷ 24 ∷ 0 ∷ 212 ∷ 0 ∷ 234 ∷ 0 ∷ 22 ∷ 0 ∷ 212 ∷ 0 ∷ 22 ∷ 0 ∷ []))
          234 (row_bytes (255 ∷ 255 ∷ 255 ∷ 255 ∷ [])))
        212 (row_bytes (5 ∷ 0 ∷ 0 ∷ 0 ∷ []));
  dirty = false;
}

abbrev one_page : Pages
one_page k = two_rows

abbrev kept_row : Record
kept_row = record stored { rid = place 0 0 }

abbrev gone_row : Record
gone_row = record stored { header = record stored.header { xmax = 5 }; rid = place 0 1 }

kept_read : read_at one_page 10000 columns 9 read_committed 2 (9 ∷ []) (place 0 0) ≡ ok kept_row
unfolding read_at get_record Record.deserialize_from Header.deserialize_from Bitmap.deserialize_from
    Record.deserialize_values Value.deserialize_from Record.new_record read write of_le Bitmap.test
    Bitmap.resize_bytes Bitmap.has_bit Bitmap.byte_at Record.set_nulls Bitmap.set Bitmap.modify
    Record.add_sizes Bitmap.or_bit is_string
kept_read = refl

gone_read : read_at one_page 10000 columns 9 read_committed 2 (9 ∷ []) (place 0 1) ≡ ok gone_row
unfolding read_at get_record Record.deserialize_from Header.deserialize_from Bitmap.deserialize_from
    Record.deserialize_values Value.deserialize_from Record.new_record read write of_le Bitmap.test
    Bitmap.resize_bytes Bitmap.has_bit Bitmap.byte_at Record.set_nulls Bitmap.set Bitmap.modify
    Record.add_sizes Bitmap.or_bit is_string
gone_read = refl

two_counted : get_record_count two_rows.bytes ≡ 2
unfolding get_record_count read write of_le
two_counted = refl

scanned :
    Chain one_page 10000 columns 9 read_committed 2 (9 ∷ []) 0 ((kept_row ∷ gone_row ∷ []) ∷ [])
unfolding read write of_le
scanned =
    linked kept_row (gone_row ∷ []) [] refl (kept_read, (gone_read, sym two_counted)) (null refl)

get_next_record-Scans_example :
    Scans one_page 10000 columns 9 read_committed 2
      (9 ∷ [])
      2
      (place 0 0)
      (visible one_page 10000 columns 9 read_committed 2 (9 ∷ []) (kept_row ∷ gone_row ∷ []))
unfolding flatten
get_next_record-Scans_example =
    get_next_record-Scans one_page 10000 columns 9 read_committed 2 (9 ∷ []) 0
      ((kept_row ∷ gone_row ∷ []) ∷ []) scanned

-- The deleted row is passed over.
visible_rows :
    visible one_page 10000 columns 9 read_committed 2 (9 ∷ []) (kept_row ∷ gone_row ∷ [])
    ≡ kept_row ∷ []
unfolding visible can_get can_get_read_committed
visible_rows = refl
