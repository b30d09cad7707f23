-- ===== src/Lib.antt =====
-- HuaDB, a relational database for teaching: what its concurrency control, its storage of records,
-- its log and its recovery do, modelled from src/.
--
-- A query of a transaction goes through a table, whose records lie in pages. A record carries the
-- ids of the transactions that inserted and deleted it; a scan reads them with the snapshot or the
-- set of active transactions and decides which records it shows. The transaction manager gives out
-- the ids and the snapshots and, when a transaction ends, has the lock manager release its locks. The
-- log manager writes the log up to a page's last change before the page is written; it keeps the last
-- record of each active transaction, from which a rollback goes back, and rebuilds its tables from
-- the log after a crash.
--
-- * Lock (src/transaction/lock_manager.cpp): `lock_table`, `lock_row` and `release_locks` are
--   `LockTable`, `LockRow` and `ReleaseLocks`, `compatible` and `upgrade` the two tables of lock
--   modes. The map from transactions to locks is an association list, in no order that matters;
--   a transaction that asks for a lock gets an entry, as `operator[]` makes it.
-- * Transaction (src/transaction/transaction_manager.cpp): `begin`, `commit`, `rollback`,
--   `get_cid_and_increment`, `set_next_xid`, `get_snapshot`; `run` is a sequence of calls, in which
--   a call that throws changes nothing. Sets of ids are lists.
-- * Visibility (src/table/table_scan.cpp): `can_get` is `CanGet`, which answers true for a record
--   that the scan passes over.
-- * TableScan (src/table/table_scan.cpp): `get_next_record` is `GetNextRecord`, over a function from
--   keys to pages. Its loop has fuel.
-- * Table (src/table/table.cpp): `insert_record`, `delete_record`, `update_record` and
--   `update_record_in_place` over such a function, with the appends to the log. The walk over the
--   pages has fuel, which is enough when there is as much as there are pages. A call that throws
--   answers with the exception alone. A table is well formed when its pages are numbered from 0 on
--   and linked in this order.
-- * BufferPool (src/storage/buffer_pool.cpp): the frames, the map from keys to frames, `get_page`,
--   `new_page`, `flush` and `clear`, with the disk as a function from databases and keys to the bytes
--   of pages. `Models` says that pool and disk together are one such function: what Table, TableScan
--   and Log/Undo take for the pool. It is stated for one database at a time, since the map from keys
--   to frames knows no databases.
-- * Header, Bitmap, TypeUtil, Value and Record (src/table/record_header.cpp, src/common/bitmap.cpp,
--   src/common/type_util.cpp, src/common/value.cpp, src/table/record.cpp): a record and its parts,
--   and `serialize_to` and `deserialize_from` of each. Bytes has the raw memory that they write: a
--   function from addresses to bytes.
-- * Value/Compare (src/common/value.cpp): comparison, sums, maxima and casts. What the processor does
--   with doubles is the parameter `Ieee`.
-- * Lru (src/storage/lru_buffer_strategy.cpp): the frames of the buffer pool in the order of use.
-- * TablePage (src/table/table_page.cpp, src/storage/page.cpp): a page is its 256 bytes in such a
--   memory, with the slots growing up and the records growing down.
-- * OidManager (src/catalog/oid_manager.cpp): the object ids, with the two maps between them and
--   the names. A call that throws leaves nothing behind here.
-- * Executor, Executor/Limit (src/executors/executor.h, src/executors/limit_executor.cpp): an executor
--   as a state with a `next`, and LIMIT and OFFSET over any other.
-- * Executor/Query (src/executors): executors whose calls may throw, with the filter, the projection
--   and the nested-loop join. A loop over the records of an executor below has fuel, which is enough
--   when there is more of it than there are records.
-- * Optimizer (src/optimizer/optimizer.cpp): the plan as filters and other operators, and
--   `split_predicates`, which is `SplitPredicates`.
-- * Log (src/log): Log/Record has the kinds of log records and their bytes, Log/File the log file of
--   src/storage/disk.cpp, Log/Manager the appends, `flush` and `checkpoint`, Log/Undo what records
--   undo and redo on pages, and `rollback`, Log/Recovery `analyze`, Log/Redo `redo_pages`,
--   `undo_active` and `recover`. The records appended so far are a list beside the state
--   (Log/Manager/History), in which Log/Manager/Steps enters what each call appends. The buffer pool
--   is a function from keys to pages there. For an undo, a parameter says which pages `GetPage` can
--   read, since it throws for the others, and which dirty pages leave their frames meanwhile, since
--   each of these has the log flushed; the redo supposes that every page can be read and that none
--   leaves its frame, since a page that does is taken out of `dpt_` and its later records are passed
--   over. The catalog knows every table whose records are undone. An array that `ReadLog` fills has
--   zeros behind; the theorems keep to records that end in it, and to a log file of less than 2^32
--   bytes.
-- * Expression (src/operators/expressions): expressions on a record and on the two of a join, without
--   lists, arithmetic, casts, functions and patterns. Doubles are the parameter `Ieee` here, too.
-- * Types, Result (src/common/types.h, src/common/constants.h, src/common/exceptions.h): ids, null
--   ids, exceptions as values. Prelude has what the modules share.
--
-- Integers are natural numbers, with the wrap of their width where the source can wrap: 16 bits for
-- sizes and offsets, 32 for transaction and command ids. Transaction ids are supposed not to be used
-- up (`Fits`). The loops are structural recursions; the loops of `Rollback`, `Analyze` and `Redo` have
-- fuel, and their theorems say how much is enough. The machine is little-endian. Access outside a
-- page is not checked by the source, nor here; the theorems say when an operation stays in the part
-- of the page that is its own.
--
-- Not modelled: reading and writing files, the parser, binder and planner, the optimizer behind
-- the splitting of filters, the executors that are not named above, the catalog but for its object
-- ids, a write through a pointer to a page that has left the buffer pool, printing. A double is its
-- 64-bit pattern.
pub mod OidManager
pub mod Optimizer
pub mod Prelude
pub mod Types
pub mod Result
pub mod Bytes
pub mod BufferPool
pub mod Executor
pub mod Expression
pub mod Lru
pub mod Log
pub mod Header
pub mod Bitmap
pub mod TypeUtil
pub mod Value
pub mod Record
pub mod Table
pub mod TablePage
pub mod TableScan
pub mod Visibility
pub mod Lock
pub mod Transaction
