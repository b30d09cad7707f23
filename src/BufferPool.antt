-- ===== src/BufferPool.antt =====
-- src/storage/buffer_pool.{h,cpp}: the pages that are in memory. The disk is a function from a
-- database's oid and a page's key to the bytes of the page, for files that exist and hold the pages
-- that are read.
pub mod Frames
pub mod Install
pub mod Add
pub mod Refine
pub mod Writes
pub mod Flush
mod Tests
use database_hw.Prelude.{
  ℕ, zero, suc, ◌+◌, Bool, true, false, ◌&&◌, ◌==◌, Option, none, some, List, [], ◌∷◌, ◌++◌, nat_eq,
  length, get_elem?, set, find, insert, erase, if◌then◌else◌,
}
use database_hw.Types.{TablePageid, eq_table_pageid}
use database_hw.Result.{Result, ok, undefined, ◌>>=◌}
use database_hw.Bytes.{Memory}
use database_hw.TablePage.{Page, get_page_lsn}
use database_hw.Lru.{BufferVec, access, evict}
use database_hw.Log.Manager
use database_hw.Log.Manager.{LogManager}

abbrev pub system_database_oid : ℕ
system_database_oid = 1

abbrev pub buffer_size : ℕ
buffer_size = 5

pub record BufferPoolEntry : Type 0 where
  pub db_oid : ℕ
  pub key : TablePageid
  pub page : Page

abbrev pub DiskPages : Type 0
DiskPages = ℕ → TablePageid → Memory

-- `Disk::WritePage`.
abbrev pub write_page : DiskPages → ℕ → TablePageid → Memory → DiskPages
write_page disk db_oid key m = λ d k. if nat_eq d db_oid && k == key then m else disk d k

pub record BufferPool : Type 0 where
  pub disk : DiskPages
  pub log_manager : LogManager
  pub buffer_strategy : BufferVec
  pub buffers : List BufferPoolEntry
  pub hashmap : List (TablePageid × ℕ)
  pub systable_buffers : List BufferPoolEntry
  pub systable_hashmap : List (TablePageid × ℕ)

abbrev pub is_system : ℕ → Bool
is_system db_oid = nat_eq db_oid system_database_oid

-- `buffers_[i]`.
abbrev pub entry_at : List BufferPoolEntry → ℕ → Result BufferPoolEntry
entry_at buffers i = elim (get_elem? buffers i) [ none ↦ undefined | some e ↦ ok e ]

-- A dirty page goes to the disk behind the log up to its lsn.
abbrev pub flush_entry : BufferPool → BufferPoolEntry → BufferPool
flush_entry s e =
    let s1 : BufferPool = record s {
      log_manager =
          Manager.flush_page s.log_manager e.key.table_oid e.key.page_id
            (get_page_lsn e.page.bytes);
      disk = write_page s.disk e.db_oid e.key e.page.bytes;
    } in
    let s2 = if e.page.dirty then s1 else s in record s2 { hashmap = erase e.key s2.hashmap }

unfoldable pub flush_page : BufferPool → ℕ → Result BufferPool
flush_page s frame_id = do e ← entry_at s.buffers frame_id; ok (flush_entry s e)

unfoldable pub flush_sys_table_page : BufferPool → ℕ → Result BufferPool
flush_sys_table_page s frame_id = do
  e ← entry_at s.systable_buffers frame_id
  let disk = if e.page.dirty then write_page s.disk e.db_oid e.key e.page.bytes else s.disk
  ok (record s { disk = disk; systable_hashmap = erase e.key s.systable_hashmap })

-- A full buffer gives up the victim's frame, else the entry takes a new frame.
abbrev pub replace_victim : BufferPool → BufferPoolEntry → ℕ × BufferVec → Result BufferPool
replace_victim s e (victim, vec) = do
  s1 ← flush_page (record s { buffer_strategy = vec }) victim
  ok (record s1 {
    buffer_strategy = access s1.buffer_strategy victim;
    buffers = set s1.buffers victim e;
    hashmap = insert e.key victim s1.hashmap;
  })

abbrev pub push_entry : BufferPool → BufferPoolEntry → BufferPool
push_entry s e = record s {
  buffer_strategy = access s.buffer_strategy (length s.buffers);
  hashmap = insert e.key (length s.buffers) s.hashmap;
  buffers = s.buffers ++ e ∷ [];
}

unfoldable pub add_to_buffer : BufferPool → ℕ → TablePageid → Page → Result BufferPool
add_to_buffer s db_oid key page =
    let e : BufferPoolEntry = record { db_oid = db_oid; key = key; page = page } in
    if is_system db_oid
    then ok (record s {
      systable_hashmap = insert key (length s.systable_buffers) s.systable_hashmap;
      systable_buffers = s.systable_buffers ++ e ∷ [];
    })
    else if nat_eq (length s.buffers) buffer_size
    then evict s.buffer_strategy >>= replace_victim s e
    else ok (push_entry s e)

-- A page that is not in memory is read from the disk.
abbrev pub load_page : BufferPool → ℕ → TablePageid → Result (BufferPool × Page)
load_page s db_oid key =
    let page : Page = record { bytes = s.disk db_oid key; dirty = false } in
    add_to_buffer s db_oid key page >>= λ (s1 : BufferPool). ok (s1, page)

unfoldable pub get_page : BufferPool → ℕ → TablePageid → Result (BufferPool × Page)
get_page s db_oid key =
    if is_system db_oid
    then elim (find key s.systable_hashmap) [
      | none ↦ load_page s db_oid key
      | some i ↦ entry_at s.systable_buffers i >>= λ (e : BufferPoolEntry). ok (s, e.page)
    ]
    else elim (find key s.hashmap) [
      | none ↦ load_page s db_oid key
      | some i ↦ entry_at s.buffers i >>= λ (e : BufferPoolEntry).
          ok (record s { buffer_strategy = access s.buffer_strategy i }, e.page)
    ]

-- `NewPage`, for the bytes that the new array has.
unfoldable pub new_page : BufferPool → ℕ → TablePageid → Memory → Result (BufferPool × Page)
new_page s db_oid key bytes =
    let page : Page = record { bytes = bytes; dirty = false } in
    add_to_buffer s db_oid key page >>= λ (s1 : BufferPool). ok (s1, page)

-- The loops of `Flush`, by the number of frames that are left.
unfoldable pub flush_pages : (left i : ℕ) → BufferPool → Result BufferPool
flush_pages zero i s = ok s
flush_pages (suc left) i s = flush_page s i >>= flush_pages left (suc i)

unfoldable pub flush_sys_table_pages : (left i : ℕ) → BufferPool → Result BufferPool
flush_sys_table_pages zero i s = ok s
flush_sys_table_pages (suc left) i s =
    flush_sys_table_page s i >>= flush_sys_table_pages left (suc i)

abbrev pub flush_system : BufferPool → Result BufferPool
flush_system s = flush_sys_table_pages (length s.systable_buffers) 0 s >>= λ (s1 : BufferPool).
    ok (record s1 { systable_buffers = [] })

unfoldable pub flush : BufferPool → Bool → Result BufferPool
flush s regular_only = flush_pages (length s.buffers) 0 s >>= λ (s1 : BufferPool).
    let s2 : BufferPool = record s1 { buffers = [] } in
    if regular_only then ok s2 else flush_system s2

abbrev pub clear : BufferPool → BufferPool
clear s = record s { buffers = []; hashmap = []; systable_buffers = []; systable_hashmap = [] }

-- A write through the pointer to a page that is in a frame.
abbrev pub write_frame : BufferPool → ℕ → BufferPoolEntry → Page → BufferPool
write_frame s i e page = record s { buffers = set s.buffers i (record e { page = page }) }

unfoldable pub write_through : BufferPool → TablePageid → Page → Result BufferPool
write_through s key page = elim (find key s.hashmap) [
  | none ↦ undefined
  | some i ↦ entry_at s.buffers i >>= λ (e : BufferPoolEntry). ok (write_frame s i e page)
]
