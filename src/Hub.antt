-- ===== src/Hub.antt =====
-- The node-local service layer (src/mutmuas/hub.py): the stores of a node, and sending.
pub mod State
pub mod Sending
pub mod Requests
pub mod Notes
pub mod Wait
pub mod Registry
pub mod Ranked
pub mod Owner
pub mod Runs
pub mod Promise
pub mod Steps
pub mod OwnerSteps
pub mod Refines
pub mod Attempts
pub mod Published
pub mod Finish
