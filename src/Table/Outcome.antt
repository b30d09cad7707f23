-- ===== src/Table/Outcome.antt =====
-- What a table is after an insertion in a page that has room, or in a new page.
use database_hw.Prelude.{
  ℕ, suc, ◌^◌, ◌<◌, ◌≤◌, ◌≡◌, refl, sym, ap, subst, ◌∙◌, inl, inr, true, false, List, nat_eq,
  nat_eq-cases, ltb, if◌then◌else◌, arith,
}
use database_hw.Types.{Rid}
use database_hw.Record.{Record, Column}
use database_hw.Record.Reads.{SameFrom}
use database_hw.TablePage
use database_hw.TablePage.{
  get_record_count, get_next_page_id, get_record, get_free_space_size, set_next_page_id,
  max_record_size,
}
use database_hw.TablePage.Space
use database_hw.TablePage.Marks.{init-IsValid}
use database_hw.TablePage.Stored.{Gets}
use database_hw.Table.{Table, page_at, has_room, fresh}
use database_hw.Table.Frame.{
  count-SameFrom, IsValid-SameFrom, KeepsRecords-SameFrom, get_record-KeepsRecords,
}
use database_hw.Table.Room.{id_of, IsValid, page_at-set_page, NoRoom}
use database_hw.Table.InPage.{Placed}
use database_hw.Table.NewPage.{new_page_of}

-- After an insertion at a place: the table is well formed, the record is read from the place, the
-- place is the next slot of the first page with room or the first slot of a new page, and every
-- record that was there is read as before.
pub record Inserted (oid : ℕ) (columns : List Column) (t : Table) (n : ℕ) (s : Record) (t' : Table)
    (rid : Rid) : Type 0 where
  pub valid : IsValid oid t' (if ltb rid.page_id n then n else suc n)
  pub inside : rid.page_id ≤ n
  pub stored : Gets (page_at oid t' rid.page_id) rid columns s
  pub slot :
      rid.slot_id
      ≡ (if ltb rid.page_id n then get_record_count (page_at oid t rid.page_id).bytes else 0)
  pub first_fit : NoRoom oid t s.size 0 rid.page_id
  pub fits : rid.page_id < n → has_room (page_at oid t rid.page_id) s.size ≡ true
  pub counts :
      (i : ℕ)
      → i < n
      → get_record_count (page_at oid t' i).bytes ≡ (
          if nat_eq i rid.page_id
          then suc (get_record_count (page_at oid t i).bytes)
          else get_record_count (page_at oid t i).bytes)
  pub counts_new : rid.page_id ≡ n → get_record_count (page_at oid t' n).bytes ≡ 1
  pub others :
      (i j : ℕ)
      → i < n
      → j < get_record_count (page_at oid t i).bytes
      → get_record (page_at oid t' i) (record { page_id = i; slot_id = j }) columns
        ≡ get_record (page_at oid t i) (record { page_id = i; slot_id = j }) columns

-- The table whose pages are linked up to the page that is to come.
pub record Linked (oid : ℕ) (t t1 : Table) (n : ℕ) : Type 0 where
  pub first : t1.first_page_id ≡ 0
  pub same : (i : ℕ) → i < n → SameFrom (page_at oid t1 i).bytes (page_at oid t i).bytes 12
  pub links : (i : ℕ) → i < n → get_next_page_id (page_at oid t1 i).bytes ≡ suc i

module _ (oid : ℕ) (columns : List Column) (t : Table) (n : ℕ) (v : IsValid oid t n)
    (s : Record) where
  abbrev page_after : (t1 : Table) (k : ℕ) (page : TablePage.Page) → ℕ → TablePage.Page
  page_after t1 k page i = if nat_eq i k then page else page_at oid t1 i

  -- What holds of the page that the record went to and of the others holds of all.
  at_each :
      (P : ℕ → TablePage.Page → Type 0) (t1 t' : Table) (k : ℕ) (p : TablePage.Page)
      (placed : Placed oid columns t1 k s p t')
      → P k placed.page
      → (i : ℕ) → (nat_eq i k ≡ false → P i (page_at oid t1 i))
      → P i (page_at oid t' i)
  at_each P t1 t' k p placed here i others =
      subst (λ (x : Table). P i (page_at oid x i)) (sym placed.same)
        (subst (P i) (sym (page_at-set_page oid t1 k placed.page i)) (elim (nat_eq-cases i k) [
          | inl e ↦
              subst (P i)
                (let same : placed.page ≡ page_after t1 k placed.page i = ground (arith, e) in same)
                (subst (λ (x : ℕ). P x placed.page) (sym e) here)
          | inr e ↦
              let other : nat_eq i k ≡ false = ground (arith, e) in
              subst (P i)
                (let same : page_at oid t1 i ≡ page_after t1 k placed.page i =
                    ground (arith, other) in
                  same)
                (others other)
        ]))

  pub within-Inserted :
      (t' : Table) (k : ℕ)
      → k < n
      → Placed oid columns t k s (page_at oid t k) t'
      → has_room (page_at oid t k) s.size ≡ true
      → NoRoom oid t s.size 0 k
      → Inserted oid columns t n s t'
          (record { page_id = k; slot_id = get_record_count (page_at oid t k).bytes })
  within-Inserted t' k below placed room before =
      let p = page_at oid t k in
      let took = placed.took in
      let each = λ (P : ℕ → TablePage.Page → Type 0). at_each P t t' k p placed in
      let size : n ≡ (if ltb k n then n else suc n) = ground arith in
      let slot : get_record_count p.bytes ≡ (if ltb k n then get_record_count p.bytes else 0) =
        ground arith in
      record {
        valid = subst (IsValid oid t') size (record {
          first = ap (λ (x : Table). x.first_page_id) placed.same ∙ v.first;
          few = v.few;
          formed = λ i h.
              each (λ (i : ℕ) (q : TablePage.Page). Space.IsValid q.bytes) took.formed i
                (λ e. v.formed i h);
          links = λ i h.
              each (λ (i : ℕ) (q : TablePage.Page). get_next_page_id q.bytes ≡ id_of n (suc i))
                (took.link ∙ v.links k below) i (λ e. v.links i h);
        });
        inside = omega arith;
        stored =
            each
              (λ (i : ℕ) (q : TablePage.Page).
                Gets q (record { page_id = i; slot_id = get_record_count p.bytes }) columns s)
              took.stored k (λ e. absurd (ground (arith, e)));
        slot = slot;
        first_fit = before;
        fits = λ h. room;
        counts = λ i h.
            each
              (λ (i : ℕ) (q : TablePage.Page). get_record_count q.bytes ≡ (
                if nat_eq i k
                then suc (get_record_count (page_at oid t i).bytes)
                else get_record_count (page_at oid t i).bytes))
              (took.counted ∙ ground arith) i (λ e. ground (arith, e));
        counts_new = λ e. absurd (omega (arith, e));
        others = λ i j h c.
            each
              (λ (i : ℕ) (q : TablePage.Page).
                j < get_record_count (page_at oid t i).bytes
                → get_record q (record { page_id = i; slot_id = j }) columns
                  ≡ get_record (page_at oid t i) (record { page_id = i; slot_id = j }) columns)
              (λ c.
                get_record-KeepsRecords p placed.page (record { page_id = k; slot_id = j }) columns
                  took.kept c)
              i (λ e c. refl) c;
      }

  pub behind-Inserted :
      (t1 t' : Table)
      → suc n < 2 ^ 32
      → Linked oid t t1 n
      → Placed oid columns t1 n s (new_page_of (page_at oid t1 n)) t'
      → NoRoom oid t s.size 0 n
      → Inserted oid columns t n s t' (record { page_id = n; slot_id = 0 })
  behind-Inserted t1 t' few linked placed before =
      let p = new_page_of (page_at oid t1 n) in
      let took = placed.took in
      let (v0, count, link, room) = init-IsValid (fresh (page_at oid t1 n)) in
      let each = λ (P : ℕ → TablePage.Page → Type 0). at_each P t1 t' n p placed in
      let size : suc n ≡ (if ltb n n then n else suc n) = ground arith in
      let slot : 0 ≡ (if ltb n n then get_record_count (page_at oid t n).bytes else 0) =
        ground arith in
      let kept = λ (i : ℕ) (h : i < n).
        KeepsRecords-SameFrom (page_at oid t i).bytes (page_at oid t1 i).bytes (linked.same i h)
          (v.formed i h) in
      record {
        valid = subst (IsValid oid t') size (record {
          first = ap (λ (x : Table). x.first_page_id) placed.same ∙ linked.first ∙ ground arith;
          few = few;
          formed = λ i h.
              each (λ (i : ℕ) (q : TablePage.Page). Space.IsValid q.bytes) took.formed i
                (λ e.
                  IsValid-SameFrom (page_at oid t i).bytes (page_at oid t1 i).bytes
                    (linked.same i (ground (arith, e))) (v.formed i (ground (arith, e))));
          links = λ i h.
              each
                (λ (i : ℕ) (q : TablePage.Page). get_next_page_id q.bytes ≡ id_of (suc n) (suc i))
                (took.link ∙ link ∙ ground arith) i
                (λ e. linked.links i (ground (arith, e)) ∙ ground (arith, e));
        });
        inside = omega arith;
        stored =
            each
              (λ (i : ℕ) (q : TablePage.Page).
                Gets q (record { page_id = i; slot_id = 0 }) columns s)
              (subst (λ (c : ℕ). Gets placed.page (record { page_id = n; slot_id = c }) columns s)
                count took.stored)
              n (λ e. absurd (ground (arith, e)));
        slot = slot;
        first_fit = before;
        fits = λ h. absurd (omega arith);
        counts = λ i h.
            each
              (λ (i : ℕ) (q : TablePage.Page).
                i < n
                → get_record_count q.bytes ≡ (
                    if nat_eq i n
                    then suc (get_record_count (page_at oid t i).bytes)
                    else get_record_count (page_at oid t i).bytes))
              (λ h. absurd (omega arith)) i
              (λ e h.
                count-SameFrom (page_at oid t i).bytes (page_at oid t1 i).bytes (linked.same i h)
                ∙ ground (arith, e))
              h;
        counts_new = λ e.
            each (λ (i : ℕ) (q : TablePage.Page). get_record_count q.bytes ≡ 1)
              (took.counted ∙ ap (λ (c : ℕ). suc c) count) n (λ e. absurd (ground (arith, e)));
        others = λ i j h c.
            each
              (λ (i : ℕ) (q : TablePage.Page).
                i < n
                → j < get_record_count (page_at oid t i).bytes
                → get_record q (record { page_id = i; slot_id = j }) columns
                  ≡ get_record (page_at oid t i) (record { page_id = i; slot_id = j }) columns)
              (λ h c. absurd (omega arith)) i
              (λ e h c.
                get_record-KeepsRecords (page_at oid t i) (page_at oid t1 i)
                  (record { page_id = i; slot_id = j }) columns (kept i h) c)
              h c;
      }
