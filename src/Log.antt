-- ===== src/Log.antt =====
-- src/log: the log of changes, its records in memory and on disk, and the manager that writes it.
pub mod Record
pub mod File
pub mod Manager
pub mod Undo
pub mod Recovery
pub mod Redo
