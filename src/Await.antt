-- ===== src/Await.antt =====
-- src/Components/Await: requests that wait for the responses of one or of many peers.
pub mod Tracker
pub mod Counting
pub mod Fulfilment
pub mod Starvation
pub mod Roster
pub mod Manager
pub mod Processing
pub mod Lookup
mod Examples
