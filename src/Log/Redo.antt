-- ===== src/Log/Redo.antt =====
-- `Redo`, `Undo` and `Recover` of src/log/log_manager.cpp: the records since the first change of a
-- dirty page are redone where the page lacks them, and the active transactions rolled back. While the
-- log is redone, every page can be read and no dirty page leaves its frame here: `FlushPage` would
-- take it out of `dpt_`, and the page's later records would be passed over.
pub mod Order
pub mod Recover
mod Tests
use database_hw.Prelude.{
  ℕ, zero, suc, ◌+◌, ◌%◌, ◌^◌, List, [], ◌∷◌, Bool, true, false, Option, none, some, nat_eq, ltb,
  leb, find, if◌then◌else◌,
}
use database_hw.Types.{TablePageid, eq_table_pageid}
use database_hw.Result.{Result, ok, throw, undefined, ◌>>=◌}
use database_hw.TablePage.{get_page_lsn}
use database_hw.Log.Record.{ActiveTable, DirtyTable, Body, new_page, LogRecord, get_size}
use database_hw.Log.Manager.{LogManager}
use database_hw.Log.Undo.{Pages, Pool, redo, find_log, read_record, rollback}
use database_hw.Log.Recovery.{page_key, or_else, analyze}

abbrev pub is_new_page : Body → Bool
is_new_page (new_page oid prev_page_id page_id) = true
is_new_page _ = false

-- The least lsn of the table of dirty pages; without one, the checkpoint's.
unfoldable pub least : ℕ → DirtyTable → ℕ
least min [] = min
least min ((k, lsn) ∷ dpt) = least (if ltb lsn min then lsn else min) dpt

unfoldable pub redo_start : LogManager → ℕ
redo_start s =
    let min = least s.next_lsn s.dpt in
    if nat_eq min s.next_lsn then or_else s.master_record 0 else min

module _ (s : LogManager) (table_exists : ℕ → Bool) where
  -- A record of the file: on a page that is not dirty, or was not when it was written, or that has
  -- the change, it is passed over.
  unfoldable pub redo_read : LogRecord → Pages → Pages
  redo_read r pages = elim (page_key r.body) [
    | none ↦ pages
    | some k ↦ elim (find k s.dpt) [
      | none ↦ pages
      | some rec_lsn ↦
          if ltb r.lsn rec_lsn
          then pages
          else if is_new_page r.body
          then redo table_exists r pages
          else if leb r.lsn (get_page_lsn (pages k).bytes)
          then pages
          else redo table_exists r pages
    ]
  ]

  -- A record of the buffer: the cast of a new page's to `DeleteLog` is null, and dereferenced.
  unfoldable pub redo_buffered : LogRecord → Pages → Result Pages
  redo_buffered r pages = if is_new_page r.body then undefined else elim (page_key r.body) [
    | none ↦ ok pages
    | some k ↦ elim (find k s.dpt) [
      | none ↦ ok pages
      | some rec_lsn ↦
          if leb r.lsn rec_lsn
          then ok pages
          else if ltb r.lsn (get_page_lsn (pages k).bytes)
          then ok pages
          else ok (redo table_exists r pages)
    ]
  ]

  -- One turn of the loop of `Redo`.
  unfoldable pub redo_step : ℕ → Pages → Result (ℕ × Pages)
  redo_step lsn_now pages =
      if ltb s.flushed_lsn lsn_now
      then elim (find_log lsn_now s.log_buffer) [
        | none ↦ ok (lsn_now, pages)
        | some r ↦ redo_buffered r pages >>= λ p. ok ((lsn_now + get_size r) % 2 ^ 64, p)
      ]
      else read_record s.disk lsn_now >>= λ r.
          ok ((lsn_now + get_size r) % 2 ^ 64, redo_read r pages)

  unfoldable pub redo_loop : ℕ → ℕ → Pages → Option (Result Pages)
  redo_loop zero lsn_now pages = none
  redo_loop (suc n) lsn_now pages = elim (ltb lsn_now s.next_lsn) [
    | false ↦ some (ok pages)
    | true ↦ elim (redo_step lsn_now pages) [
      | ok p ↦ redo_loop n p.0 p.1
      | throw e ↦ some (throw e)
      | undefined ↦ some undefined
    ]
  ]

  unfoldable pub redo_pages : ℕ → Pages → Option (Result Pages)
  redo_pages fuel pages = redo_loop fuel (redo_start s) pages

-- The loop of `Undo` over the active transactions, which all have an entry.
unfoldable pub undo_active :
    ℕ → Pool → LogManager → ActiveTable → Pages → Option (Result (LogManager × Pages))
undo_active fuel pool s [] pages = some (ok (s, pages))
undo_active fuel pool s ((xid, lsn) ∷ att) pages = elim (rollback fuel pool s xid pages) [
  | none ↦ none
  | some (ok (t, undone)) ↦ undo_active fuel pool t att undone
  | some (throw e) ↦ some (throw e)
  | some undefined ↦ some undefined
]

-- `Recover`, behind its analysis and behind its redo.
abbrev pub undo_behind :
    ℕ → Pool → LogManager → Option (Result Pages) → Option (Result (LogManager × Pages))
undo_behind fuel pool s none = none
undo_behind fuel pool s (some (ok p)) = undo_active fuel pool s s.att p
undo_behind fuel pool s (some (throw e)) = some (throw e)
undo_behind fuel pool s (some undefined) = some undefined

abbrev pub redo_behind :
    ℕ
    → Pool
    → (ℕ → Bool)
    → Pages
    → Option (Result (LogManager × ℕ))
    → Option (Result (LogManager × Pages))
redo_behind fuel pool table_exists pages none = none
redo_behind fuel pool table_exists pages (some (ok p)) =
    undo_behind fuel pool p.0 (redo_pages p.0 table_exists fuel pages)
redo_behind fuel pool table_exists pages (some (throw e)) = some (throw e)
redo_behind fuel pool table_exists pages (some undefined) = some undefined

unfoldable pub recover :
    ℕ → Pool → LogManager → (ℕ → Bool) → Pages → Option (Result (LogManager × Pages))
recover fuel pool s table_exists pages = redo_behind fuel pool table_exists pages (analyze fuel s)
