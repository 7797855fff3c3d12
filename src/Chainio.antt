-- ===== src/Chainio.antt =====
-- core/chainio: the calls of the AVS contract. The contract bindings of go-ethereum and the SDK's
-- transaction manager are parameters.
pub mod Writer
pub mod Subscriber
pub mod Builders
