-- ===== src/Bindings/Erc20.antt =====
-- contracts/bindings/ERC20Mock/binding.go.
pub mod Handles
pub mod Reads
pub mod Writes
pub mod Events
pub mod Session
pub mod CallerSession
pub mod TransactorSession
