-- ===== src/Journal.antt =====
-- worker/journal.rs: the log of trigram postings and the network of tasks that answers a query.
pub mod Nodes
pub mod Union
pub mod Pass
pub mod Meet
pub mod Threshold
pub mod Blocks
pub mod Chain
pub mod Addresses
pub mod Collector
pub mod Batch
pub mod Merge
pub mod Choose
pub mod Left
pub mod Collected
pub mod Copy
pub mod Table
pub mod Written
pub mod Bounds
pub mod Loop
pub mod Sorted
pub mod Stored
pub mod Listed
pub mod Rewrite
pub mod Defrag
pub mod Reached
pub mod Cursor
pub mod Feed
pub mod Progress
pub mod Pieces
pub mod Opening
pub mod Reader
pub mod Falls
pub mod Network
pub mod Launch
pub mod Tasks
pub mod Delivered
pub mod Answer
pub mod Built
pub mod Made
pub mod Search
pub mod Ingest
pub mod Open
pub mod Cut
pub mod Recover
pub mod Tests
pub mod Runs
mod Restart
