-- ===== src/Table/Room.antt =====
-- A well-formed table, and the walk over its pages.
use database_hw.Prelude.{
  ℕ, zero, suc, ◌+◌, ◌-◌, ◌%◌, ◌^◌, ◌<◌, ◌≤◌, ◌≡◌, refl, sym, ap, subst, ◌∙◌, ◌⊎◌, inl, inr, Bool,
  true, false, Option, some, nat_eq, nat_eq-cases, ltb, Bool-cases, if◌then◌else◌, eq_nat, arith,
}
use database_hw.Types.{null_page_id, eq_table_pageid}
use database_hw.TablePage
use database_hw.TablePage.{get_next_page_id, set_next_page_id}
use database_hw.TablePage.Space
use database_hw.Table.{Table, Place, within, behind, page_at, set_page, has_room, find_room}

-- The id of a page of a table of so many pages, or the null id behind the last.
abbrev pub id_of : ℕ → ℕ → ℕ
id_of n i = if ltb i n then i else null_page_id

-- The pages are numbered from 0 on, each is well formed, and each is linked to the next.
pub record IsValid (oid : ℕ) (t : Table) (n : ℕ) : Type 0 where
  pub first : t.first_page_id ≡ id_of n 0
  pub few : n < 2 ^ 32
  pub formed : (i : ℕ) → i < n → Space.IsValid (page_at oid t i).bytes
  pub links : (i : ℕ) → i < n → get_next_page_id (page_at oid t i).bytes ≡ id_of n (suc i)

pub page_at-set_page :
    (oid : ℕ) (t : Table) (k : ℕ) (p : TablePage.Page) (j : ℕ)
    → page_at oid (set_page oid t k p) j ≡ (if nat_eq j k then p else page_at oid t j)
page_at-set_page oid t k p j = ground arith

module _ (oid : ℕ) (t : Table) (size : ℕ) where
  abbrev pub NoRoom : ℕ → ℕ → Type 0
  NoRoom lo hi = (j : ℕ) → lo ≤ j → j < hi → has_room (page_at oid t j) size ≡ false

  abbrev pub link_last : ℕ → Table
  link_last k = set_page oid t k (set_next_page_id (page_at oid t k) ((k + 1) % 2 ^ 32))

  find_room-null :
      (fuel last : ℕ) → find_room oid (suc fuel) t last null_page_id size ≡ some (t, behind last)
  unfolding find_room
  find_room-null fuel last = refl

  find_room-within :
      (fuel last next : ℕ)
      → nat_eq next null_page_id ≡ false
      → has_room (page_at oid t next) size ≡ true
      → find_room oid (suc fuel) t last next size ≡ some (t, within next)
  unfolding find_room
  find_room-within fuel last next e room = ground (arith, e, room)

  find_room-next :
      (fuel last next : ℕ)
      → nat_eq next null_page_id ≡ false
      → has_room (page_at oid t next) size ≡ false
      → nat_eq (get_next_page_id (page_at oid t next).bytes) null_page_id ≡ false
      → find_room oid (suc fuel) t last next size
        ≡ find_room oid fuel t next (get_next_page_id (page_at oid t next).bytes) size
  unfolding find_room
  find_room-next fuel last next e room after = rw (after, e, room)

  find_room-last :
      (fuel last next : ℕ)
      → nat_eq next null_page_id ≡ false
      → has_room (page_at oid t next) size ≡ false
      → get_next_page_id (page_at oid t next).bytes ≡ null_page_id
      → find_room oid (suc (suc fuel)) t last next size ≡ some (link_last next, behind next)
  unfolding find_room
  find_room-last fuel last next e room after = rw (after, e, room)

  -- The walk ends on the first page behind the `i`th that has room, and changes nothing.
  pub record Within (i n : ℕ) (found : Option (Table × Place)) : Type 0 where
    pub k : ℕ
    pub run : found ≡ some (t, within k)
    pub above : i < k
    pub below : k < n
    pub room : has_room (page_at oid t k) size ≡ true
    pub before : NoRoom (suc i) k

  -- No page behind the `i`th has room, and the last of them is linked to the page to come.
  pub record Behind (i n : ℕ) (found : Option (Table × Place)) : Type 0 where
    pub run : found ≡ some ((if ltb (suc i) n then link_last (n - 1) else t), behind (n - 1))
    pub none : NoRoom (suc i) n

  further :
      (i n : ℕ) (found found' : Option (Table × Place))
      → suc (suc i) < n
      → found ≡ found'
      → has_room (page_at oid t (suc i)) size ≡ false
      → Within (suc i) n found' ⊎ Behind (suc i) n found'
      → Within i n found ⊎ Behind i n found
  further i n found found' more same full (inl w) = inl (record {
    k = w.k;
    run = same ∙ w.run;
    above = omega (arith, w.above);
    below = w.below;
    room = w.room;
    before = λ j lo hi. elim (nat_eq-cases j (suc i)) [
      | inl e ↦ subst (λ (x : ℕ). has_room (page_at oid t x) size ≡ false) (sym e) full
      | inr e ↦ w.before j (omega arith) hi
    ];
  })
  further i n found found' more same full (inr b) = inr (record {
    run = same ∙ b.run ∙ ground arith;
    none = λ j lo hi. elim (nat_eq-cases j (suc i)) [
      | inl e ↦ subst (λ (x : ℕ). has_room (page_at oid t x) size ≡ false) (sym e) full
      | inr e ↦ b.none j (omega arith) hi
    ];
  })

  last-Behind :
      (n i fuel : ℕ)
      → IsValid oid t n
      → suc (suc i) ≡ n
      → 0 < fuel
      → has_room (page_at oid t (suc i)) size ≡ false
      → Behind i n (find_room oid (suc fuel) t i (id_of n (suc i)) size)
  last-Behind n i zero v e h full = absurd (omega arith)
  last-Behind n i (suc fuel) v e h full =
      let few = v.few in
      let here : id_of n (suc i) ≡ suc i = ground arith in
      let link : get_next_page_id (page_at oid t (suc i)).bytes ≡ null_page_id =
        v.links (suc i) (omega arith) ∙ ground arith in
      let end : n - 1 ≡ suc i = omega arith in
      let inside : ltb (suc i) n ≡ true = ground arith in
      record {
        run =
            ap (λ (k : ℕ). find_room oid (suc (suc fuel)) t i k size) here
            ∙ find_room-last fuel i (suc i) (ground arith) full link
            ∙ ap (λ (k : ℕ). some (link_last k, behind k)) (sym end)
            ∙ ap (λ (b : Bool). some ((if b then link_last (n - 1) else t), behind (n - 1)))
                (sym inside);
        none = λ j lo hi.
            subst (λ (x : ℕ). has_room (page_at oid t x) size ≡ false)
              (let same : suc i ≡ j = omega arith in same) full;
      }

  -- With more fuel than there are pages behind the `i`th, the walk from the `i`th page ends.
  pub find_room_lem :
      (n d i fuel : ℕ)
      → IsValid oid t n
      → suc i + d ≡ n
      → d < fuel
      → Within i n (find_room oid fuel t i (id_of n (suc i)) size)
        ⊎ Behind i n (find_room oid fuel t i (id_of n (suc i)) size)
  find_room_lem n d i zero v e h = absurd (omega arith)
  find_room_lem n zero i (suc fuel) v e h =
      let at_end : id_of n (suc i) ≡ null_page_id = ground arith in
      inr (record {
        run =
            ap (λ (k : ℕ). find_room oid (suc fuel) t i k size) at_end
            ∙ find_room-null fuel i
            ∙ ground arith;
        none = λ j lo hi. absurd (omega arith);
      })
  find_room_lem n (suc d) i (suc fuel) v e h =
      let few = v.few in
      let here : id_of n (suc i) ≡ suc i = ground arith in
      let page : nat_eq (suc i) null_page_id ≡ false = ground arith in
      let link = v.links (suc i) (omega arith) in
      let walk = λ (k : ℕ). find_room oid (suc fuel) t i k size in
      elim (Bool-cases (has_room (page_at oid t (suc i)) size)) [
        | inl room ↦ inl (record {
          k = suc i;
          run = ap walk here ∙ find_room-within fuel i (suc i) page room;
          above = omega arith;
          below = omega arith;
          room = room;
          before = λ j lo hi. absurd (omega arith);
        })
        | inr full ↦ elim (nat_eq-cases (suc (suc i)) n) [
          | inl last ↦ inr (last-Behind n i fuel v last (omega arith) full)
          | inr more ↦
              let inside : suc (suc i) < n = omega arith in
              let after : nat_eq (get_next_page_id (page_at oid t (suc i)).bytes) null_page_id
                  ≡ false =
                ground (arith, link) in
              further i n (walk (id_of n (suc i)))
                (find_room oid fuel t (suc i) (id_of n (suc (suc i))) size) inside
                (ap walk here
                  ∙ find_room-next fuel i (suc i) page full after
                  ∙ ap (λ (k : ℕ). find_room oid fuel t (suc i) k size) link)
                full (find_room_lem n d (suc i) fuel v (omega arith) (omega arith))
        ]
      ]
