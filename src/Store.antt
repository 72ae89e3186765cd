-- ===== src/Store.antt =====
-- The package store/: rows, ranking and paging, and the in-memory backend.
pub mod Types
pub mod Sort
pub mod Ranking
pub mod Interface
pub mod Memory
pub mod Sql
pub mod Sqlite
