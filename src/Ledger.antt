-- ===== src/Ledger.antt =====
-- The per-node ledger (src/mutmuas/ledger.py): the tables, and the operations on them. A statement
-- on a table is a function on the list of its rows, in the order of their rowids.
pub mod Rows
pub mod Insert
pub mod Outbox
pub mod Inbox
pub mod Tasks
pub mod History
pub mod SentRows
pub mod Lasting
pub mod Outlet
pub mod Thread
pub mod Delivery
pub mod Transitions
pub mod Updated
