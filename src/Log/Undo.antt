-- ===== src/Log/Undo.antt =====
-- `Undo` and `Redo` of the log records (src/log/log_records), on the pages of the buffer pool, and
-- `Rollback` of src/log/log_manager.cpp. The pool is a function from the keys of pages to the pages;
-- the bytes of a page that it makes anew are those that the store has for the key. What `GetPage` in
-- an `Undo` does besides, a throw or the eviction of other pages, is a parameter.
pub mod Lookup
pub mod Rollback
mod Tests
use database_hw.Prelude.{
  ℕ, zero, suc, ◌+◌, ◌%◌, ◌^◌, List, [], ◌∷◌, Bool, true, false, Option, none, some, nat_eq, ltb,
  ◌==◌, find, insert, if◌then◌else◌, eq_nat,
}
use database_hw.Types.{TablePageid, eq_table_pageid, null_lsn, null_page_id}
use database_hw.Result.{Result, ok, throw, undefined, page_read_failed, ◌>>=◌}
use database_hw.Bytes.{write}
use database_hw.TablePage.{
  Page, init, delete_record, undo_delete_record, redo_insert_record, set_next_page_id,
  get_next_page_id,
}
use database_hw.Log.Record.{LogRecord, Body, begin, insertion, deletion, new_page, deserialize_from}
use database_hw.Log.File.{LogFile, read_log}
use database_hw.Log.Manager.{LogManager, page_of, flush_page}

abbrev pub Pages : Type 0
Pages = TablePageid → Page

abbrev pub put_page : Pages → TablePageid → Page → Pages
put_page pages k p = λ j. if j == k then p else pages j

-- What the records need of the buffer pool: the pages that `GetPage` can read, from a frame or from
-- their file, which no `NULL_PAGE_ID` is the number of; and the dirty pages, with their lsns, that
-- leave their frames while the pages of a record are read for its `Undo`.
pub record Pool : Type 0 where
  pub readable : TablePageid → Bool
  pub evicted : LogRecord → List (TablePageid × ℕ)

-- `GetPage`: a page that is not in its file throws.
abbrev pub read_page : Pool → Pages → TablePageid → Result Page
read_page pool pages k = if pool.readable k then ok (pages k) else throw page_read_failed

-- `Undo` of each kind; the other kinds do nothing.
unfoldable pub undo_insertion : Pool → (xid oid page_id slot_id : ℕ) → Pages → Result Pages
undo_insertion pool xid oid page_id slot_id pages = do
  page ← read_page pool pages (page_of oid page_id)
  ok (put_page pages (page_of oid page_id) (delete_record page slot_id xid))

unfoldable pub undo_deletion : Pool → (oid page_id slot_id : ℕ) → Pages → Result Pages
undo_deletion pool oid page_id slot_id pages = do
  page ← read_page pool pages (page_of oid page_id)
  ok (put_page pages (page_of oid page_id) (undo_delete_record page slot_id))

unfoldable pub undo_new_page : Pool → (oid prev_page_id page_id : ℕ) → Pages → Result Pages
undo_new_page pool oid prev_page_id page_id pages = do
  prev_page ← read_page pool pages (page_of oid prev_page_id)
  page ← read_page pool pages (page_of oid page_id)
  ok (
      put_page pages (page_of oid prev_page_id)
        (set_next_page_id prev_page (get_next_page_id page.bytes)))

unfoldable pub undo : Pool → LogRecord → Pages → Result Pages
undo pool r pages = elim r.body [
  | insertion oid page_id slot_id page_offset record_size raw ↦
      undo_insertion pool r.xid oid page_id slot_id pages
  | deletion oid page_id slot_id ↦ undo_deletion pool oid page_id slot_id pages
  | new_page oid prev_page_id page_id ↦ undo_new_page pool oid prev_page_id page_id pages
  | _ ↦ ok pages
]

-- `Redo` of each kind, with the catalog's `TableExists`.
unfoldable pub redo_insertion :
    (table_exists : ℕ → Bool) (oid page_id slot_id page_offset record_size : ℕ)
    → List ℕ
    → Pages
    → Pages
redo_insertion table_exists oid page_id slot_id page_offset record_size raw pages =
    let k = page_of oid page_id in
    if table_exists oid
    then put_page pages k (redo_insert_record (pages k) slot_id raw page_offset record_size)
    else pages

unfoldable pub redo_deletion :
    (table_exists : ℕ → Bool) (xid oid page_id slot_id : ℕ) → Pages → Pages
redo_deletion table_exists xid oid page_id slot_id pages =
    let k = page_of oid page_id in
    if table_exists oid then put_page pages k (delete_record (pages k) slot_id xid) else pages

unfoldable pub redo_new_page :
    (table_exists : ℕ → Bool) (oid prev_page_id page_id : ℕ) → Pages → Pages
redo_new_page table_exists oid prev_page_id page_id pages =
    let k = page_of oid page_id in
    let prev = page_of oid prev_page_id in
    let linked =
      put_page pages k (set_next_page_id (init (pages k)) (get_next_page_id (pages prev).bytes)) in
    if table_exists oid
    then if nat_eq prev_page_id null_page_id
      then put_page pages k (set_next_page_id (init (pages k)) null_page_id)
      else put_page linked prev (set_next_page_id (linked prev) page_id)
    else pages

unfoldable pub redo : (table_exists : ℕ → Bool) → LogRecord → Pages → Pages
redo table_exists r pages = elim r.body [
  | insertion oid page_id slot_id page_offset record_size raw ↦
      redo_insertion table_exists oid page_id slot_id page_offset record_size raw pages
  | deletion oid page_id slot_id ↦ redo_deletion table_exists r.xid oid page_id slot_id pages
  | new_page oid prev_page_id page_id ↦ redo_new_page table_exists oid prev_page_id page_id pages
  | _ ↦ pages
]

abbrev pub max_log_size : ℕ
max_log_size = 1 + 4 + 8 + 4 + 4 + 4 + 2 + 2 + 2 + 230 + 8

-- `ReadLog` of that many bytes and `LogRecord::DeserializeFrom`.
unfoldable pub read_record : LogFile → ℕ → Result LogRecord
read_record disk lsn = do
  bytes ← read_log disk lsn max_log_size
  deserialize_from lsn (write (λ i. 0) 0 bytes) 0

unfoldable pub find_log : ℕ → List LogRecord → Option LogRecord
find_log lsn [] = none
find_log lsn (r ∷ rest) = if nat_eq r.lsn lsn then some r else find_log lsn rest

-- The log manager behind evictions, each of which flushes the log up to its page's lsn.
unfoldable pub flush_evicted : LogManager → List (TablePageid × ℕ) → LogManager
flush_evicted s [] = s
flush_evicted s ((k, page_lsn) ∷ rest) =
    flush_evicted (flush_page s k.table_oid k.page_id page_lsn) rest

-- A record undone, with the evictions that this makes.
unfoldable pub undo_record : Pool → LogManager → LogRecord → Pages → Result (LogManager × ℕ × Pages)
undo_record pool s r pages = do
  undone ← undo pool r pages
  ok (flush_evicted s (pool.evicted r), r.prev_lsn, undone)

-- One turn of the loop of `Rollback`: a record that should be in the buffer and is not leaves all
-- as it was.
unfoldable pub rollback_step : Pool → LogManager → ℕ → Pages → Result (LogManager × ℕ × Pages)
rollback_step pool s lsn_now pages =
    if ltb s.flushed_lsn lsn_now
    then elim (find_log lsn_now s.log_buffer) [
      | none ↦ ok (s, lsn_now, pages)
      | some r ↦ undo_record pool s r pages
    ]
    else (do r ← read_record s.disk lsn_now; undo_record pool s r pages)

-- The loop, with fuel for its turns: `none` when that is used up.
unfoldable pub rollback_loop :
    ℕ → Pool → LogManager → ℕ → Pages → Option (Result (LogManager × Pages))
rollback_loop zero pool s lsn_now pages = none
rollback_loop (suc n) pool s lsn_now pages = elim (nat_eq lsn_now null_lsn) [
  | true ↦ some (ok (s, pages))
  | false ↦ elim (rollback_step pool s lsn_now pages) [
    | ok (t, lsn, undone) ↦ rollback_loop n pool t lsn undone
    | throw e ↦ some (throw e)
    | undefined ↦ some undefined
  ]
]

-- `Rollback`: `att_[xid]` makes an entry 0 for a transaction that has none. A call that throws
-- answers with the exception alone.
unfoldable pub rollback : ℕ → Pool → LogManager → ℕ → Pages → Option (Result (LogManager × Pages))
rollback fuel pool s xid pages = elim (find xid s.att) [
  | none ↦ rollback_loop fuel pool (record s { att = insert xid 0 s.att }) 0 pages
  | some lsn ↦ rollback_loop fuel pool s lsn pages
]
