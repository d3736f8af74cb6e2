-- ===== src/Cli.antt =====
-- The command line (src/mutmuas/cli.py): what its commands make of their arguments and of the files that
-- they are given, before and after the operations of the hub.
pub mod Agents
pub mod Setup
pub mod Messages
pub mod Watch
pub mod Service
pub mod Safe
pub mod Once
