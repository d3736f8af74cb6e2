-- ===== src/Node.antt =====
-- The daemon of a node (src/mutmuas/node.py). A coroutine between two waits is an action of `M`;
-- what it waits for is an argument.
pub mod Receive
pub mod Dispatch
pub mod Requests
pub mod Results
pub mod Execute
pub mod Recover
pub mod Runner
pub mod Cards
pub mod Policy
pub mod Queue
pub mod Honesty
pub mod Acknowledged
pub mod Steps
pub mod RunSteps
pub mod Handled
