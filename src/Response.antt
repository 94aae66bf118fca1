-- ===== src/Response.antt =====
-- The response package: what may be blocked, and how a block is proposed, enforced and released.
pub mod Evidence
pub mod Policy
pub mod Pf
pub mod Target
pub mod Engine
