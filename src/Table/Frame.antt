-- ===== src/Table/Frame.antt =====
-- Changes of a page that leave its space and its records as they are: its lsn and its link.
use database_hw.Prelude.{
  ℕ, zero, suc, ◌+◌, ◌%◌, ◌/◌, ◌-◌, ◌^◌, ◌<◌, ◌≤◌, ◌≡◌, refl, sym, ap, ◌∙◌, inr, List, arith,
}
use database_hw.Types.{Rid}
use database_hw.Result.{Result, ok, ◌>>=◌}
use database_hw.Bytes.{Memory, get_int, le_bytes}
use database_hw.Bytes.Laws.{write_outside, length-le_bytes, get_int-put_int}
use database_hw.Record
use database_hw.Record.{Record, Column}
use database_hw.Record.Reads.{SameFrom, deserialize_from-SameFrom}
use database_hw.TablePage.{
  Page, slot_at, slot_offset, get_record_count, get_record, get_next_page_id, set_page_lsn,
  set_next_page_id,
}
use database_hw.TablePage.Space.{IsValid, limit, get_int-same}
use database_hw.TablePage.Stored.{KeepsRecords}

module _ (m m' : Memory) (same : SameFrom m' m 12) where
  int_kept : (from width : ℕ) → 12 ≤ from → get_int m' from width ≡ get_int m from width
  int_kept from width le = get_int-same m' m from width (λ i lo hi. same i (omega arith))

  pub count-SameFrom : get_record_count m' ≡ get_record_count m
  unfolding get_record_count
  count-SameFrom =
      ap (λ (l : ℕ). (l + 2 ^ 64 - 16) % 2 ^ 64 / 4 % 2 ^ 16) (int_kept 12 2 (omega arith))

  limit-SameFrom : (i : ℕ) → limit m' i ≡ limit m i
  limit-SameFrom zero = refl
  limit-SameFrom (suc i) = int_kept (slot_at i) 2 (omega arith)

  pub IsValid-SameFrom : IsValid m → IsValid m'
  IsValid-SameFrom v =
      let count = count-SameFrom in
      let lower = int_kept 12 2 (omega arith) in
      let upper = int_kept 14 2 (omega arith) in
      record {
        slots = omega (arith, v.slots);
        apart = omega (arith, v.apart);
        lowest =
            upper
            ∙ v.lowest
            ∙ ap (limit m) (sym count)
            ∙ sym (limit-SameFrom (get_record_count m'));
        records = λ i h.
            let was = v.records i (omega arith) in
            let offset = int_kept (slot_at i) 2 (omega arith) in
            let size = int_kept (slot_at i + 2) 2 (omega arith) in
            let top = limit-SameFrom i in (omega arith, omega arith);
      }

  pub KeepsRecords-SameFrom : IsValid m → KeepsRecords m m'
  KeepsRecords-SameFrom v = record {
    slots = λ i h. (int_kept (slot_at i) 2 (omega arith), int_kept (slot_at i + 2) 2 (omega arith));
    bytes = λ i j h at. same j (omega (arith, v.records i h, v.slots, v.apart));
  }

-- A record that is kept is read as before.
pub get_record-KeepsRecords :
    (p p' : Page) (rid : Rid) (columns : List Column)
    → KeepsRecords p.bytes p'.bytes
    → rid.slot_id < get_record_count p.bytes
    → get_record p' rid columns ≡ get_record p rid columns
unfolding get_record
get_record-KeepsRecords p p' rid columns k h =
    ap
      (λ (r : Result (Record × ℕ)). r >>= λ (y : Record × ℕ).
        Record.new_record y.0.values y.0.rid >>= λ (copy : Record).
        ok (record copy { header = y.0.header }))
      (ap (λ (at : ℕ). Record.deserialize_from (Record.empty_record rid) p'.bytes at columns)
          (k.slots rid.slot_id h).0
        ∙ deserialize_from-SameFrom p'.bytes p.bytes (slot_offset p.bytes rid.slot_id)
            (λ j at. k.bytes rid.slot_id j h at) (Record.empty_record rid) columns)

-- The lsn is in front of the link, and the link in front of the space.
pub set_page_lsn-SameFrom : (p : Page) (lsn : ℕ) → SameFrom (set_page_lsn p lsn).bytes p.bytes 8
set_page_lsn-SameFrom p lsn i h =
    write_outside p.bytes 0 (le_bytes 8 lsn) i (inr (omega (arith, length-le_bytes 8 lsn)))

pub set_next_page_id-SameFrom :
    (p : Page) (page_id : ℕ) → SameFrom (set_next_page_id p page_id).bytes p.bytes 12
set_next_page_id-SameFrom p page_id i h =
    write_outside p.bytes 8 (le_bytes 4 page_id) i (inr (omega (arith, length-le_bytes 4 page_id)))

pub get_next_page_id-set_next_page_id :
    (p : Page) (page_id : ℕ)
    → page_id < 2 ^ 32
    → get_next_page_id (set_next_page_id p page_id).bytes ≡ page_id
get_next_page_id-set_next_page_id p page_id h = get_int-put_int p.bytes 8 4 page_id h

pub KeepsRecords-trans :
    (m m' m'' : Memory)
    → KeepsRecords m m'
    → KeepsRecords m' m''
    → get_record_count m ≤ get_record_count m'
    → KeepsRecords m m''
KeepsRecords-trans m m' m'' a b le = record {
  slots = λ i h. (
    (b.slots i (omega arith)).0 ∙ (a.slots i h).0,
    (b.slots i (omega arith)).1 ∙ (a.slots i h).1,
  );
  bytes = λ i j h at. b.bytes i j (omega arith) (omega (arith, (a.slots i h).0)) ∙ a.bytes i j h at;
}
