-- ===== src/Lib.antt =====
-- blockless-avs, a price oracle secured by restaked operators. An operator is asked for the price
-- of a symbol, reads it from the web, signs its digest and sends it to the aggregator. The
-- aggregator opens a task in its aggregation service for the price, stores the request that goes
-- with the digest, and, when the service has enough signatures, sends the request, the price and
-- the aggregated signature to the contract, which checks them and stores the price.
--
-- - Base: shared names. Tests, Lists, Words (machine integers with their wrap-around), Results
--   (Go errors and outcomes), Maps (Go maps as association lists), Effects (calls that change a
--   state and may fail), Calls (calls that may also panic or exit).
-- - Bindings: the structs of contracts/bindings/BlocklessAVS/binding.go. Values and Handles have
--   what all its methods share (Raw its raw handles), Iterator and Watch the loops over a
--   contract's logs, Avs its callers (Reads), transactors (Writes), sessions, events, and the ABI
--   with its methods (Methods); Erc20 has those of contracts/bindings/ERC20Mock/binding.go. Abi
--   has the libraries that keep to an ABI, Avs/Chain the contract's prices as structs of the
--   binding, Avs/Listener a program that follows its events.
-- - Token: contracts/src/ERC20Mock.sol, and its supply.
-- - Core/Digest, Core/Points: core/utils.go. Core/Config: core/config/config.go and the
--   constructor of core/logging/zerolog.go, whose methods are in Core/Logging.
-- - Chainio: core/chainio, its constructors (Builders), the transaction that updates the price
--   (Writer, with Deployed over a node that runs the contract) and the subscription to the contract's events (Subscriber).
-- - Aggregator: State, Rpc (aggregator/rpc_server.go), Send, Start and Setup
--   (aggregator/aggregator.go). Rpc has each endpoint as one call; Sections cuts it at its locks
--   and at its calls of the service and lets any number of calls interleave. Main:
--   aggregator/cmd/main.go.
-- - Contract: contracts/src/BlocklessAVS.sol, with History for sequences of accepted transactions
--   and Replay and Signed for any transactions: the events that they emit, and where a price comes
--   from.
-- - Operator: Coingecko (operator/coingecko.go), Oracle, Start and Setup (operator/operator.go
--   and types/avs_config.go), RpcClient (operator/rpc_client.go, with Interleaved for sends at
--   the same time), Registration (operator/registration.go), Metrics (metrics).
-- - Node: node/pkg, the HTTP API (Api, node/pkg/api.go) that asks the operator for a symbol, the
--   start of the P2P node (P2p, node/pkg/p2p.go), its flags (Flags, node/pkg/flags.go and
--   node/pkg/cli_flags.go), the handler that executes a function and the database (Executor).
-- - Cli: the wait of RunAVS (cli/avs.go) for the P2P node, the HTTP server or an interrupt. Run:
--   the whole of RunAVS, with its databases. Commands: the commands of cli/main.go, and
--   app_config.go. Server: the HTTP server's middleware, the wait for it and the browser
--   (cli/avs.go).
-- - Pipeline: a response from the operator through the aggregator to the transaction, and with
--   Stored through the binding to the storage of the contract.
--
-- The modules below these hold the proofs (Laws and modules named for what they prove), and those
-- named Examples the concrete inputs at which the results are applied.
--
-- Functions keep the source's names in snake case. Go's error is GoError, a call (T, error) is a
-- Result; a nil *big.Int is none. Libraries outside the repository are records of functions that
-- the definitions take as parameters: the ABI encoding and hash, the aggregation service, the
-- Ethereum client, HTTP and JSON, float64, net/rpc, the SDK's constructors and the middleware's
-- checkSignatures. A main loop is a function of the list of events in the order in which its
-- select takes them, so it ends by recursion on that list; no definition needs fuel. The five
-- attempts of the operator's client are recursion on their number.
--
-- The selects of an iterator and of a subscription take signals of a list, in its order, and a
-- node that runs the contract is a parameter with its documented behaviour as a record of laws:
-- signing with no-send options changes nothing, and nothing is said of a Send that fails.
--
-- Not modelled: the metrics server, the b7s node that node/pkg starts, and the protocol buffers,
-- which hold no logic of the oracle.
pub mod Base
pub mod Bindings
pub mod Core
pub mod Contract
pub mod Chainio
pub mod Aggregator
pub mod Operator
pub mod Node
pub mod Pipeline
pub mod Cli
pub mod Token
