-- ===== src/Db.antt =====
-- db/dbaccess.c: the database behind the daemon. The MySQL client is an argument.
pub mod Table
pub mod Batch
pub mod Handle
pub mod Execute
pub mod Timeout
mod Tests
