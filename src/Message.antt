-- ===== src/Message.antt =====
-- src/BryptMessage: the messages that nodes exchange, packed into bytes and unpacked again.
pub mod Definitions
pub mod Parser
pub mod Identifier
pub mod Header
pub mod Context
pub mod Network
pub mod Application
mod Examples
pub mod Peek
