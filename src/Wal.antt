-- ===== src/Wal.antt =====
-- burnlens/storage/wal.py: the log that a request is written to before its row is in the database,
-- its recovery, its repair, and the worker that inserts the rows.
pub mod File
pub mod Record
pub mod Recovery
pub mod Repair
pub mod Worker
pub mod Process
pub mod Replay
pub mod Steps
pub mod Held
pub mod Durability
pub mod Lifespan
mod Tests
