-- ===== src/Tests.antt =====
-- The theorems at concrete inputs.
pub mod Amounts
pub mod Records
pub mod Requests
pub mod Events
pub mod Audits
pub mod Tokens
pub mod Streams
pub mod Guards
pub mod Breakers
