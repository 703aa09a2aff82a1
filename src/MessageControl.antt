-- ===== src/MessageControl.antt =====
-- src/Components/MessageControl: what a node does with the packs of a peer.
pub mod Authorized
pub mod Collected
pub mod Replies
pub mod Queue
pub mod Exchange
pub mod Authorization
mod Examples
mod ExchangeExamples
