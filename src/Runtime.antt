-- ===== src/Runtime.antt =====
-- How a worker's process is started and what is read from it (src/mutmuas/runtime.py).
pub mod Context
pub mod Commands
pub mod Prompt
pub mod Output
pub mod Process
pub mod Privilege
pub mod Tail
pub mod LastJson
