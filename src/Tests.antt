-- ===== src/Tests.antt =====
-- Runs of the program at concrete inputs.
pub mod Fixtures
pub mod Policy
pub mod Masking
pub mod Waiting
pub mod Injection
pub mod Network
pub mod Tokens
pub mod Calls
pub mod Endpoints
pub mod Files
pub mod Logging
