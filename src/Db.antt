-- ===== src/Db.antt =====
-- Package db: the SQLite store (db/db.go). `Models` has the rows, `Tx` the connection and its
-- transactions, the other modules the operations of one table or group of tables each, and their
-- children the proofs.
pub mod Samples
pub mod Models
pub mod Tx
pub mod Watchlist
pub mod Keys
pub mod Companies
pub mod Sorting
pub mod Series
pub mod Consolidated
pub mod Quiet
pub mod Safe
mod Tests
