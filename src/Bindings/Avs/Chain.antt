-- ===== src/Bindings/Avs/Chain.antt =====
-- The contract's prices as the structs of the binding.
use blockless_avs_tools.Base.{pos, some, string_eq}
use blockless_avs_tools.Bindings.{Price}
use blockless_avs_tools.Contract.{OnchainPrice, Storage, OracleUpdate, Tx, done, reverted}

-- The Go struct of a price of the contract.
abbrev pub go_price : OnchainPrice → Price
go_price p = record { symbol = p.symbol; price = some (pos p.price); timestamp = p.timestamp }

-- The storage after a transaction: a revert leaves it.
abbrev pub storage_after : Tx (Storage × OracleUpdate) → Storage → Storage
storage_after (done r) s = r.0
storage_after (reverted _) s = s
