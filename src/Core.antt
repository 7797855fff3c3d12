-- ===== src/Core.antt =====
-- core: utils.go, the digest that operators sign and the points sent to the contract; config; and
-- logging.
pub mod Digest
pub mod Points
pub mod Config
pub mod Logging
pub mod Examples
