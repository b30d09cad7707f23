-- ===== src/Table/Insert.antt =====
-- `InsertRecord` stores the record in the first page that has room, or in a new page.
use database_hw.Prelude.{
  ℕ, zero, suc, ◌+◌, ◌-◌, ◌%◌, ◌^◌, ◌<◌, ◌≤◌, ◌≡◌, refl, sym, ap, subst, ◌∙◌, ◌⊎◌, inl, inr, Bool,
  true, false, Option, some, List, nat_eq-cases, ltb, Bool-cases, if◌then◌else◌, arith,
}
use database_hw.Types.{Rid, null_page_id}
use database_hw.Result.{Result, ok}
use database_hw.Record.{Record, Column}
use database_hw.Record.RoundTrip.{CanStore}
use database_hw.TablePage.{get_record_count, set_next_page_id, max_record_size}
use database_hw.TablePage.Stored.{stamped}
use database_hw.Log.Manager.{LogManager}
use database_hw.Table.{
  Table, Place, within, behind, page_at, has_room, find_room, insert_in_page, insert_in_new_page,
  insert_record,
}
use database_hw.Table.Frame.{set_next_page_id-SameFrom, get_next_page_id-set_next_page_id}
use database_hw.Table.Room.{id_of, IsValid, NoRoom, Within, Behind, find_room_lem, link_last}
use database_hw.Table.Outcome.{Inserted, Linked, within-Inserted, behind-Inserted}
use database_hw.Table.InPage.{IsActive, insert_in_page-Placed}
use database_hw.Table.NewPage.{insert_in_new_page-Placed}
use database_hw.Table.Calls.{call-empty, call-first, call-walk, insert_at-behind}

module _ (oid xid cid : ℕ) (write_log : Bool) (columns : List Column) (t : Table) (n : ℕ)
    (r : Record) (v : IsValid oid t n) (active : write_log ≡ true → IsActive t.log_manager xid)
    (c : CanStore columns r) (hx : xid < 2 ^ 32) (hc : cid < 2 ^ 32) where
  -- The call returns, with a place and a table as they should be.
  abbrev pub Returns : Option (Result (Table × Rid × Record)) → Type 0
  Returns answer =
      (t' : Table) × (rid : Rid) × (answer
        ≡ some (ok (t', rid, record (stamped r xid cid) { rid = rid })))
      × Inserted oid columns t n (stamped r xid cid) t' rid

  insert_in_page-Returns :
      (k : ℕ)
      → k < n
      → has_room (page_at oid t k) r.size ≡ true
      → NoRoom oid t r.size 0 k
      → Returns (some (insert_in_page oid xid cid write_log t k r))
  insert_in_page-Returns k below room before =
      let (t', run, placed) =
        insert_in_page-Placed oid xid cid write_log columns t k active r c hx hc (v.formed k below)
          (ground (arith, room)) in
      (
        t',
        record { page_id = k; slot_id = get_record_count (page_at oid t k).bytes },
        ap (λ (x : Result (Table × Rid × Record)). some x) run,
        within-Inserted oid columns t n v (stamped r xid cid) t' k below placed room before,
      )

  insert_in_new_page-Returns :
      (t1 : Table) (prev : ℕ)
      → t1.log_manager ≡ t.log_manager
      → Linked oid t t1 n
      → r.size ≤ max_record_size
      → suc n < 2 ^ 32
      → NoRoom oid t r.size 0 n
      → Returns (some (insert_in_new_page oid xid cid write_log t1 prev n r))
  insert_in_new_page-Returns t1 prev log linked size few before =
      let (t', run, placed) =
        insert_in_new_page-Placed oid xid cid write_log columns t1 prev n r
          (λ on. subst (λ (l : LogManager). IsActive l xid) (sym log) (active on)) c hx hc size in
      (
        t',
        record { page_id = n; slot_id = 0 },
        ap (λ (x : Result (Table × Rid × Record)). some x) run,
        behind-Inserted oid columns t n v (stamped r xid cid) t1 t' few linked placed before,
      )

  link_last-Linked : 0 < n → Linked oid t (link_last oid t r.size (n - 1)) n
  link_last-Linked pos =
      let k = n - 1 in
      let q = set_next_page_id (page_at oid t k) ((k + 1) % 2 ^ 32) in
      let few = v.few in
      let low = set_next_page_id-SameFrom (page_at oid t k) ((k + 1) % 2 ^ 32) in
      let next =
        get_next_page_id-set_next_page_id (page_at oid t k) ((k + 1) % 2 ^ 32) (omega arith) in
      record {
        first = v.first ∙ ground arith;
        same = λ i h. elim (nat_eq-cases i k) [
          | inl e ↦ λ j at. ground (arith, e, low j at)
          | inr e ↦ λ j at. ground (arith, e)
        ];
        links = λ i h. elim (nat_eq-cases i k) [
          | inl e ↦ ground (arith, e, next)
          | inr e ↦ ground (arith, e, v.links i h)
        ];
      }

  abbrev call : ℕ → Option (Result (Table × Rid × Record))
  call fuel = insert_record oid xid cid write_log fuel t r

  abbrev walk : ℕ → Option (Table × Place)
  walk fuel = find_room oid fuel t 0 (id_of n 1) r.size

  new_at_end :
      0 < n
      → r.size ≤ max_record_size
      → suc n < 2 ^ 32
      → NoRoom oid t r.size 0 n
      → Returns (
          some
            (insert_in_new_page oid xid cid write_log (link_last oid t r.size (n - 1)) (n - 1) n r))
  new_at_end pos size few before =
      insert_in_new_page-Returns (link_last oid t r.size (n - 1)) (n - 1) refl
        (link_last-Linked pos) size few before

  NoRoom-first :
      (k : ℕ)
      → has_room (page_at oid t 0) r.size ≡ false
      → NoRoom oid t r.size 1 k
      → NoRoom oid t r.size 0 k
  NoRoom-first k full later zero lo hi = full
  NoRoom-first k full later (suc j) lo hi = later (suc j) (omega arith) hi

  Returns-same : (a b : Option (Result (Table × Rid × Record))) → a ≡ b → Returns b → Returns a
  Returns-same a b e (t', rid, run, outcome) = (t', rid, e ∙ run, outcome)

  Behind-Returns :
      (fuel : ℕ)
      → 0 < n
      → n ≤ fuel
      → r.size ≤ max_record_size
      → suc n < 2 ^ 32
      → has_room (page_at oid t 0) r.size ≡ false
      → Within oid t r.size 0 n (walk fuel) ⊎ Behind oid t r.size 0 n (walk fuel)
      → Returns (call fuel)
  Behind-Returns fuel pos enough size few full (inl w) =
      Returns-same (call fuel) (some (insert_in_page oid xid cid write_log t w.k r))
        (call-walk oid xid cid write_log t n r v fuel (t, within w.k) pos size full w.run)
        (insert_in_page-Returns w.k w.below w.room (NoRoom-first w.k full w.before))
  Behind-Returns fuel pos enough size few full (inr b) =
      let found : Table × Place =
        ((if ltb 1 n then link_last oid t r.size (n - 1) else t), behind (n - 1)) in
      Returns-same (call fuel)
        (some
          (insert_in_new_page oid xid cid write_log (link_last oid t r.size (n - 1)) (n - 1) n r))
        (call-walk oid xid cid write_log t n r v fuel found pos size full b.run
          ∙ ap (λ (x : Result (Table × Rid × Record)). some x)
              (insert_at-behind oid xid cid write_log t n r v pos))
        (new_at_end pos size few (NoRoom-first n full b.none))

  -- In a well-formed table of `n` pages, with fuel for them and another page id left, a record that
  -- its columns can hold and that is not too large is inserted, for a transaction that is active in
  -- the log where it is logged: the table is well formed again, with one page more when no page had
  -- room; the record, with the ids of the transaction and the command, is read from the place that
  -- is returned, which is the next slot of the first page with room or the first of the new page;
  -- that page counts one record more, and every record that was there is read as before.
  pub insert_record-Inserted :
      (fuel : ℕ)
      → n ≤ fuel
      → r.size ≤ max_record_size
      → suc n < 2 ^ 32
      → Returns (insert_record oid xid cid write_log fuel t r)
  insert_record-Inserted fuel enough size few = elim (nat_eq-cases n 0) [
    | inl e ↦
        let t1 : Table = record t { first_page_id = 0 } in
        Returns-same (call fuel)
          (some (insert_in_new_page oid xid cid write_log t1 null_page_id n r))
          (call-empty oid xid cid write_log t n r v fuel e size)
          (insert_in_new_page-Returns t1 null_page_id refl
            (record {
              first = refl;
              same = λ i h. absurd (omega arith);
              links = λ i h. absurd (omega arith);
            })
            size few (λ j lo hi. absurd (omega arith)))
    | inr e ↦
        let pos : 0 < n = omega arith in
        elim (Bool-cases (has_room (page_at oid t 0) r.size)) [
          | inl room ↦
              Returns-same (call fuel) (some (insert_in_page oid xid cid write_log t 0 r))
                (call-first oid xid cid write_log t n r v fuel pos size room)
                (insert_in_page-Returns 0 pos room (λ j lo hi. absurd (omega arith)))
          | inr full ↦
              Behind-Returns fuel pos enough size few full
                (find_room_lem oid t r.size n (n - 1) 0 fuel v (omega arith) (omega arith))
        ]
  ]
