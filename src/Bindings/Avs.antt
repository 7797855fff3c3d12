-- ===== src/Bindings/Avs.antt =====
-- contracts/bindings/BlocklessAVS/binding.go.
pub mod Reads
pub mod Writes
pub mod OracleEvents
pub mod OwnerEvents
pub mod PauseEvents
pub mod Methods
pub mod Chain
pub mod Listener
pub mod Session
pub mod CallerSession
pub mod TransactorSession
