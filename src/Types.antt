-- ===== src/Types.antt =====
-- src/common/types.h and src/common/constants.h: identifiers and their null values. The integer
-- types are native numbers; a width appears where the code wraps or serialises.
use database_hw.Prelude.{ℕ, ◌≡◌, ◌↔◌, Bool, ◌&&◌, ◌^◌, ◌-◌, arith, nat_eq, Key}

-- A record's place: its page and its slot there.
pub record Rid : Type 0 where
  pub page_id : ℕ
  pub slot_id : ℕ

-- The key of a page in the buffer pool and in the dirty page table.
pub record TablePageid : Type 0 where
  pub table_oid : ℕ
  pub page_id : ℕ

abbrev pub table_pageid_eq : TablePageid → TablePageid → Bool
table_pageid_eq a b = nat_eq a.table_oid b.table_oid && nat_eq a.page_id b.page_id

pub table_pageid_eq_iff : (a b : TablePageid) → (table_pageid_eq a b ≡ Bool.true) ↔ (a ≡ b)
table_pageid_eq_iff a b = ground arith

instance abbrev pub eq_table_pageid : Key TablePageid
eq_table_pageid = record { same_key = table_pageid_eq; same_key_iff = table_pageid_eq_iff }

abbrev pub rid_eq : Rid → Rid → Bool
rid_eq a b = nat_eq a.page_id b.page_id && nat_eq a.slot_id b.slot_id

pub rid_eq_iff : (a b : Rid) → (rid_eq a b ≡ Bool.true) ↔ (a ≡ b)
rid_eq_iff a b = ground arith

instance abbrev pub eq_rid : Key Rid
eq_rid = record { same_key = rid_eq; same_key_iff = rid_eq_iff }

abbrev pub null_xid : ℕ
null_xid = 2 ^ 32 - 1

abbrev pub null_cid : ℕ
null_cid = 2 ^ 32 - 1

abbrev pub null_page_id : ℕ
null_page_id = 2 ^ 32 - 1

abbrev pub null_lsn : ℕ
null_lsn = 2 ^ 64 - 1
