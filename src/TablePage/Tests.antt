-- ===== src/TablePage/Tests.antt =====
-- A page of one record, and the theorems at it.
use database_hw.Prelude.{ℕ, zero, suc, ◌+◌, ◌≡◌, ◌<◌, ◌≤◌, refl, true, false, [], ◌∷◌, arith}
use database_hw.Types.{null_page_id}
use database_hw.Result.{ok}
use database_hw.Bytes.{write, read, of_le}
use database_hw.Header
use database_hw.Record.Tests.{blank, stored, columns, stored-CanStore}
use database_hw.TablePage.{
  Page, max_record_size, init, slot_offset, slot_size, get_next_page_id, get_record_count,
  get_free_space_size, insert_record, redo_insert_record, get_upper,
}
use database_hw.TablePage.Redo.{redo_insert_record-insert_record}
use database_hw.TablePage.Space.{IsValid, limit}
use database_hw.TablePage.Marks.{init-IsValid}
use database_hw.TablePage.Stored.{Gets, KeepsRecords, stamped, insert_record-get_record}

abbrev fresh_page : Page
fresh_page = init (record { bytes = blank; dirty = false })

init-IsValid_example :
    IsValid fresh_page.bytes
    × (get_record_count fresh_page.bytes ≡ 0)
    × (get_next_page_id fresh_page.bytes ≡ null_page_id)
    × (max_record_size ≤ get_free_space_size fresh_page.bytes)
init-IsValid_example = init-IsValid (record { bytes = blank; dirty = false })

abbrev one_record : Page
one_record = record {
  bytes =
      write (write blank 12 (20 ∷ 0 ∷ 234 ∷ 0 ∷ 234 ∷ 0 ∷ 22 ∷ 0 ∷ [])) 234
        (0 ∷ 4 ∷ 0 ∷ 0 ∷ 0 ∷ 255 ∷ 255 ∷ 255 ∷ 255 ∷ 1 ∷ 0 ∷ 0 ∷ 0 ∷ 2 ∷ []);
  dirty = false;
}

one_record-IsValid : IsValid one_record.bytes
unfolding get_record_count write read of_le
one_record-IsValid = record {
  slots = refl;
  apart = omega arith;
  lowest = refl;
  records = λ i h. only i h;
}
  where
    only :
        (i : ℕ)
        → i < 1
        → (234 ≤ slot_offset one_record.bytes i)
          × (slot_offset one_record.bytes i + slot_size one_record.bytes i
              ≤ limit one_record.bytes i)
    only zero h = (omega arith, omega arith)
    only (suc i) h = absurd (omega arith)

room : stored.size ≤ get_free_space_size one_record.bytes
unfolding get_free_space_size write read of_le
room = omega arith

insert_record-get_record_example :
    (p' : Page) × (insert_record one_record stored 4 1
      ≡ ok (p', get_record_count one_record.bytes, stamped stored 4 1))
    × (p'.dirty ≡ true)
    × IsValid p'.bytes
    × (get_record_count p'.bytes ≡ suc (get_record_count one_record.bytes))
    × Gets p'
        (record { page_id = 0; slot_id = get_record_count one_record.bytes })
        columns
        (stamped stored 4 1)
    × KeepsRecords one_record.bytes p'.bytes
    × ((i : ℕ) → i < 12 → p'.bytes i ≡ one_record.bytes i)
insert_record-get_record_example =
    insert_record-get_record one_record stored 4 1 columns 0 one_record-IsValid stored-CanStore
      (omega arith) (omega arith) room

redo_insert_record-insert_record_example :
    (p' : Page) × (slot_id : ℕ) × (insert_record one_record stored 4 1
      ≡ ok (p', slot_id, stamped stored 4 1))
    × (redo_insert_record one_record slot_id (read p'.bytes (get_upper p'.bytes) 22) 0 22 ≡ p')
redo_insert_record-insert_record_example =
    redo_insert_record-insert_record one_record stored 4 1 columns 0 one_record-IsValid
      stored-CanStore (omega arith) (omega arith) room
