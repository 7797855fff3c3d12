-- ===== src/Aggregator.antt =====
-- The aggregator: aggregator/aggregator.go, aggregator/rpc_server.go, aggregator/types/types.go and
-- aggregator/cmd/main.go.
pub mod State
pub mod Rpc
pub mod Send
pub mod Start
pub mod Main
pub mod Sections
pub mod Setup
pub mod Examples
