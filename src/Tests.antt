-- ===== src/Tests.antt =====
-- Each result at a concrete input, on the messages and the ledger of a small project.
mod Samples
mod Messages
mod Ledgers
mod Nodes
mod Daemon
mod Processes
mod Files
mod Servers
mod Rounds
mod Commands
mod Clones
mod Registry
mod Setup
