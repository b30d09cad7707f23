-- ===== src/Table/Tests.antt =====
-- A table of one empty page, and the insertion of a record in it.
use database_hw.Prelude.{◌≡◌, refl, true, false, [], ◌∷◌, some, none, arith, ◌∙◌}
use database_hw.Types.{Rid}
use database_hw.Result.{ok}
use database_hw.Record.Tests.{blank, stored, columns, stored-CanStore}
use database_hw.TablePage
use database_hw.TablePage.{init}
use database_hw.TablePage.Marks.{init-IsValid}
use database_hw.TablePage.Stored.{stamped}
use database_hw.Log.Manager.{new_log_manager}
use database_hw.Table.{Table, insert_record}
use database_hw.Table.Room.{IsValid}
use database_hw.Table.Outcome.{Inserted}
use database_hw.Table.Insert.{insert_record-Inserted}

abbrev empty_page : TablePage.Page
empty_page = init (record { bytes = blank; dirty = false })

abbrev one_page : Table
one_page = record {
  first_page_id = 0;
  pages = λ k. empty_page;
  log_manager =
      record (new_log_manager (record { bytes = blank; size = 0; log_segments = 0 }) none none 13) {
        att = (4, 0) ∷ [];
      };
}

one_page-IsValid : IsValid 10000 one_page 1
one_page-IsValid = record {
  first = refl;
  few = omega arith;
  formed = λ i h. (init-IsValid (record { bytes = blank; dirty = false })).0;
  links = λ i h. (init-IsValid (record { bytes = blank; dirty = false })).2 ∙ ground (arith, h);
}

insert_record-Inserted_example :
    (t' : Table) × (rid : Rid) × (insert_record 10000 4 1 true 1 one_page stored
      ≡ some (ok (t', rid, record (stamped stored 4 1) { rid = rid })))
    × Inserted 10000 columns one_page 1 (stamped stored 4 1) t' rid
insert_record-Inserted_example =
    insert_record-Inserted 10000 4 1 true columns one_page 1 stored one_page-IsValid
      (λ on. (0, refl)) stored-CanStore (omega arith) (omega arith) 1 (omega arith) (omega arith)
      (omega arith)
