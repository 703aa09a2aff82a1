-- ===== src/Message/Application.antt =====
-- src/BryptMessage/ApplicationMessage.hpp and ApplicationMessage.cpp, in parts.
pub mod Defs
pub mod Unpack
pub mod Extensions
pub mod RoundTrip
pub mod Delivery
