-- ===== src/Table/Calls.antt =====
-- The branches of `InsertRecord` on a well-formed table.
use database_hw.Prelude.{
  ℕ, ◌+◌, ◌-◌, ◌%◌, ◌^◌, ◌<◌, ◌≤◌, ◌≡◌, refl, sym, ap, ◌∙◌, inl, inr, Bool, true, false, Option,
  none, some, nat_eq, nat_eq-cases, ltb, if◌then◌else◌, arith,
}
use database_hw.Types.{Rid, null_page_id}
use database_hw.Result.{Result}
use database_hw.Record.{Record}
use database_hw.TablePage.{get_next_page_id, set_next_page_id, max_record_size}
use database_hw.Table.{
  Table, Place, behind, page_at, set_page, has_room, find_room, insert_in_page, insert_in_new_page,
  insert_at, insert_record,
}
use database_hw.Table.Room.{id_of, IsValid, link_last}

module _ (oid xid cid : ℕ) (write_log : Bool) (t : Table) (n : ℕ) (r : Record)
    (v : IsValid oid t n) where
  abbrev pub call : ℕ → Option (Result (Table × Rid × Record))
  call fuel = insert_record oid xid cid write_log fuel t r

  pub call-empty :
      (fuel : ℕ)
      → n ≡ 0
      → r.size ≤ max_record_size
      → call fuel
        ≡ some (
            insert_in_new_page oid xid cid write_log
              (record t { first_page_id = 0 })
              null_page_id
              n
              r)
  unfolding insert_record
  call-empty fuel e size =
      let small : ltb max_record_size r.size ≡ false = ground arith in
      let null : nat_eq t.first_page_id null_page_id ≡ true = ground (arith, v.first) in
      let here : call fuel
          ≡ some (
              insert_in_new_page oid xid cid write_log (record t { first_page_id = 0 }) null_page_id
                0 r) =
        rw (small, null) refl in
      here
      ∙ ap
          (λ (k : ℕ). some (
            insert_in_new_page oid xid cid write_log (record t { first_page_id = 0 }) null_page_id k
              r))
          (sym e)

  pub call-first :
      (fuel : ℕ)
      → 0 < n
      → r.size ≤ max_record_size
      → has_room (page_at oid t 0) r.size ≡ true
      → call fuel ≡ some (insert_in_page oid xid cid write_log t 0 r)
  unfolding insert_record
  call-first fuel pos size room =
      let small : ltb max_record_size r.size ≡ false = ground arith in
      let first : t.first_page_id ≡ 0 = v.first ∙ ground arith in rw (small, first, room) refl

  abbrev pub walk : ℕ → Option (Table × Place)
  walk fuel = find_room oid fuel t 0 (id_of n 1) r.size

  abbrev after_walk : Option (Table × Place) → Option (Result (Table × Rid × Record))
  after_walk found = elim found [
    | none ↦ none
    | some place ↦ some (insert_at oid xid cid write_log r place)
  ]

  pub call-walk :
      (fuel : ℕ) (found : Table × Place)
      → 0 < n
      → r.size ≤ max_record_size
      → has_room (page_at oid t 0) r.size ≡ false
      → walk fuel ≡ some found
      → call fuel ≡ some (insert_at oid xid cid write_log r found)
  unfolding insert_record
  call-walk fuel found pos size full run =
      let small : ltb max_record_size r.size ≡ false = ground arith in
      let first : t.first_page_id ≡ 0 = v.first ∙ ground arith in
      let some_page : nat_eq t.first_page_id null_page_id ≡ false = ground (arith, first) in
      let first_full : has_room (page_at oid t t.first_page_id) r.size ≡ false =
        ap (λ (k : ℕ). has_room (page_at oid t k) r.size) first ∙ full in
      let here : call fuel
          ≡ after_walk (
              find_room oid fuel t t.first_page_id
                (get_next_page_id (page_at oid t t.first_page_id).bytes) r.size) =
        rw (small, some_page, first_full) refl in
      here
      ∙ ap
          (λ (k : ℕ).
            after_walk (find_room oid fuel t k (get_next_page_id (page_at oid t k).bytes) r.size))
          first
      ∙ ap (λ (k : ℕ). after_walk (find_room oid fuel t 0 k r.size)) (v.links 0 pos)
      ∙ ap after_walk run

  -- The last page is linked by the loop, or behind it where it is the first.
  pub insert_at-behind :
      0 < n
      → insert_at oid xid cid write_log r
          ((if ltb 1 n then link_last oid t r.size (n - 1) else t), behind (n - 1))
        ≡ insert_in_new_page oid xid cid write_log (link_last oid t r.size (n - 1)) (n - 1) n r
  insert_at-behind pos =
      let first : t.first_page_id ≡ 0 = v.first ∙ ground arith in
      let few = v.few in
      let id : (n - 1 + 1) % 2 ^ 32 ≡ n = omega arith in
      let last = link_last oid t r.size in
      let new = λ (t1 : Table) (k : ℕ). insert_in_new_page oid xid cid write_log t1 (n - 1) k r in
      let at = λ (b : Bool).
        insert_at oid xid cid write_log r ((if b then last (n - 1) else t), behind (n - 1)) in
      elim (nat_eq-cases n 1) [
        | inl e ↦
            let single : ltb 1 n ≡ false = ground (arith, e) in
            let is_first : nat_eq (n - 1) t.first_page_id ≡ true = ground (arith, e, first) in
            let same : t.first_page_id ≡ n - 1 = omega (arith, e, first) in
            ap at single
            ∙ ap (λ (b : Bool). new (if b then last t.first_page_id else t) ((n - 1 + 1) % 2 ^ 32))
                is_first
            ∙ ap (λ (k : ℕ). new (last k) ((n - 1 + 1) % 2 ^ 32)) same
            ∙ ap (new (last (n - 1))) id
        | inr e ↦
            let several : ltb 1 n ≡ true = ground (arith, e) in
            let is_first : nat_eq (n - 1) t.first_page_id ≡ false = ground (arith, e, first) in
            let t1 = last (n - 1) in
            ap at several
            ∙ ap
                (λ (b : Bool).
                  new
                    (if b
                      then set_page oid t1 t1.first_page_id (
                          set_next_page_id (page_at oid t1 t1.first_page_id)
                            ((t1.first_page_id + 1) % 2 ^ 32))
                      else t1)
                    ((n - 1 + 1) % 2 ^ 32))
                is_first
            ∙ ap (new t1) id
      ]
