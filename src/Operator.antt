-- ===== src/Operator.antt =====
-- The operator: operator/*.go and metrics/metrics.go.
pub mod Coingecko
pub mod Oracle
pub mod Start
pub mod RpcClient
pub mod Registration
pub mod Setup
pub mod Metrics
pub mod Examples
