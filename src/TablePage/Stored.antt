-- ===== src/TablePage/Stored.antt =====
-- `InsertRecord` stores a record that `GetRecord` then returns.
use database_hw.Prelude.{
  ℕ, suc, ◌+◌, ◌-◌, ◌%◌, ◌^◌, ◌<◌, ◌≤◌, ◌≡◌, refl, sym, ap, subst, ◌∙◌, ◌⊎◌, inl, true, List,
  length, arith,
}
use database_hw.Types.{Rid}
use database_hw.Result.{Result, ok, ◌>>=◌}
use database_hw.Bytes.{Memory}
use database_hw.Record
use database_hw.Record.{Record, Column}
use database_hw.Record.Invariant
use database_hw.Record.RoundTrip.{
  CanStore, stored_size, size-stored_size, serialize_to-deserialize_from_record,
}
use database_hw.TablePage.{
  Page, set_dirty, get_upper, slot_offset, slot_size, get_record_count, get_free_space_size,
  insert_record, get_record,
}
use database_hw.TablePage.Space.{IsValid, count_small, count-Grown, Grown-IsValid, Grown-above}
use database_hw.TablePage.Insert.{
  free_space-HasRoom, inserted, inserted-low, inserted-Claimed, Claimed-Grown, Claimed-above,
}

-- The record with the ids of the transaction and the command that insert it.
abbrev pub stamped : Record → ℕ → ℕ → Record
stamped r xid cid = record r { header = record r.header { cid = cid; xmin = xid } }

pub stamped-CanStore :
    (columns : List Column) (r : Record) (xid cid : ℕ)
    → CanStore columns r
    → xid < 2 ^ 32
    → cid < 2 ^ 32
    → CanStore columns (stamped r xid cid)
unfolding stored_size
stamped-CanStore columns r xid cid c hx hc = record {
  valid = record {
    bitmap_size = c.valid.bitmap_size;
    bytes = c.valid.bytes;
    marked = c.valid.marked;
    sized = c.valid.sized;
  };
  holds = c.holds;
  header = record { xmin = hx; xmax = c.header.xmax; cid = hc };
  few = c.few;
  short = c.short;
}

-- `GetRecord` of a record that is read from the slot: a record of its values.
get_record-read :
    (p : Page) (rid : Rid) (columns : List Column) (s : Record)
    → Record.deserialize_from
        (Record.empty_record rid)
        p.bytes
        (slot_offset p.bytes rid.slot_id)
        columns
      ≡ ok (s, s.size)
    → length s.values < 2 ^ 16
    → (got : Record) × (get_record p rid columns ≡ ok got)
      × (got.values ≡ s.values)
      × (got.header ≡ s.header)
      × (got.rid ≡ s.rid)
      × Invariant.IsValid got
unfolding get_record
get_record-read p rid columns s read few =
    let (copy, run, values, header, at, valid) = Invariant.new_record-IsValid s.values s.rid few in
    (
      record copy { header = s.header },
      ap
            (λ (x : Result (Record × ℕ)). x >>= λ (y : Record × ℕ).
              Record.new_record y.0.values y.0.rid >>= λ (copy : Record).
              ok (record copy { header = y.0.header }))
            read
          ∙ ap
              (λ (x : Result Record).
                x >>= λ (copy : Record). ok (record copy { header = s.header }))
              run,
      values,
      refl,
      at,
      record {
        bitmap_size = valid.bitmap_size;
        bytes = valid.bytes;
        marked = valid.marked;
        sized = valid.sized;
      },
    )

-- The slots and the bytes of the records that a page has are as before.
pub record KeepsRecords (m m' : Memory) : Type 0 where
  pub slots :
      (i : ℕ)
      → i < get_record_count m
      → (slot_offset m' i ≡ slot_offset m i) × (slot_size m' i ≡ slot_size m i)
  pub bytes : (i j : ℕ) → i < get_record_count m → slot_offset m i ≤ j → m' j ≡ m j

-- The record is read from a slot, with its values and its header.
pub record Gets (p : Page) (rid : Rid) (columns : List Column) (s : Record) : Type 0 where
  pub got : Record
  pub run : get_record p rid columns ≡ ok got
  pub values : got.values ≡ s.values
  pub header : got.header ≡ s.header
  pub at : got.rid ≡ rid
  pub valid : Invariant.IsValid got

module _ (p : Page) (r : Record) (xid cid : ℕ) (columns : List Column) where
  abbrev pub after_write : Memory × ℕ → Result (Page × ℕ × Record)
  after_write w =
      ok (set_dirty w.0, (get_record_count w.0 + 2 ^ 16 - 1) % 2 ^ 16, stamped r xid cid)

  pub insert_record_run :
      Record.serialize_to
          (stamped r xid cid)
          (inserted p.bytes r.size)
          (get_upper (inserted p.bytes r.size))
        >>= after_write
      ≡ insert_record p r xid cid
  unfolding insert_record
  insert_record_run = refl

  -- In a page that is well formed, and has the free space for it, a record that can be stored is
  -- inserted: it gets the next slot, the page stays well formed, dirty, with one record more;
  -- `GetRecord` returns the record with the ids of the transaction and the command; the other
  -- records keep their slots and their bytes; and the page keeps its lsn and its link.
  pub insert_record-get_record :
      (page_id : ℕ)
      → IsValid p.bytes
      → CanStore columns r
      → xid < 2 ^ 32
      → cid < 2 ^ 32
      → r.size ≤ get_free_space_size p.bytes
      → (p' : Page) × (insert_record p r xid cid
          ≡ ok (p', get_record_count p.bytes, stamped r xid cid))
        × (p'.dirty ≡ true)
        × IsValid p'.bytes
        × (get_record_count p'.bytes ≡ suc (get_record_count p.bytes))
        × Gets p'
            (record { page_id = page_id; slot_id = get_record_count p.bytes })
            columns
            (stamped r xid cid)
        × KeepsRecords p.bytes p'.bytes
        × ((i : ℕ) → i < 12 → p'.bytes i ≡ p.bytes i)
  unfolding stored_size
  insert_record-get_record page_id v c hx hc free =
      let m = p.bytes in
      let n = get_record_count m in
      let s = stamped r xid cid in
      let c' = stamped-CanStore columns r xid cid c hx hc in
      let size = size-stored_size columns r c in
      let room = free_space-HasRoom m r.size (omega arith) free in
      let claimed = inserted-Claimed m r.size v room in
      let m4 = inserted m r.size in
      let rid : Rid = record { page_id = page_id; slot_id = n } in
      let (m5, run, back, exact, outside) =
        serialize_to-deserialize_from_record columns s rid m4 (get_upper m4) c' in
      let apart = λ (i : ℕ) (h : (i < get_upper m - r.size) ⊎ (get_upper m - r.size + r.size ≤ i)).
        outside i (omega (arith, claimed.upper)) in
      let g = Claimed-Grown m m4 m5 r.size v room claimed apart in
      let above = Claimed-above m m4 m5 r.size v room claimed apart in
      let count = count-Grown m m5 r.size v g in
      let small = count_small m v in
      let slot : (get_record_count m5 + 2 ^ 16 - 1) % 2 ^ 16 ≡ n = omega arith in
      let there : slot_offset m5 n ≡ get_upper m4 =
        g.offset ∙ omega (arith, g.upper, claimed.upper, room.fits) in
      let (got, got_run, values, header, at, valid) =
        get_record-read (set_dirty m5) rid columns (record s { rid = rid })
          (subst
            (λ (k : ℕ).
              Record.deserialize_from (Record.empty_record rid) m5 k columns
              ≡ ok (record s { rid = rid }, s.size))
            (sym there) back)
          c.few in
      (
        set_dirty m5,
        sym insert_record_run
            ∙ ap (λ (w : Result (Memory × ℕ)). w >>= after_write) run
            ∙ ap (λ (k : ℕ). ok (set_dirty m5, k, s)) slot,
        refl,
        Grown-IsValid m m5 r.size v g,
        count,
        record {
          got = got;
          run = got_run;
          values = values;
          header = header;
          at = at;
          valid = valid;
        },
        record { slots = g.others; bytes = Grown-above m m5 r.size v g above },
        λ i h.
            outside i (inl (omega (arith, claimed.lower, claimed.upper, room.fits)))
            ∙ inserted-low m r.size i h,
      )
