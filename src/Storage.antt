-- ===== src/Storage.antt =====
-- src/internal/storage: the buffered and the plain PostgreSQL storage.
pub mod Rows
pub mod Tx
pub mod Batch
pub mod Postgres
