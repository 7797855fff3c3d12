-- ===== src/Node.antt =====
-- node/pkg: the HTTP API of the operator's process, its P2P node and the flags of that node.
pub mod Api
pub mod P2p
pub mod Flags
pub mod Executor
pub mod Examples
