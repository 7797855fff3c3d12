-- ===== src/Bindings/Raw.antt =====
-- The raw handles of contracts/bindings/BlocklessAVS/binding.go: a method by its name, with any
-- arguments.
use blockless_avs_tools.Base.{String, List}
use blockless_avs_tools.Base.Effects.{Effect}
use blockless_avs_tools.Bindings.Values.{Any, Bind}
use blockless_avs_tools.Bindings.Handles.{Caller, Transactor, Handle}

-- `ContractBlocklessAVSRaw`, `…CallerRaw` and `…TransactorRaw`.
pub record Raw (Bound : Type 0) : Type 0 where
  pub contract : Handle Bound

pub record CallerRaw (Bound : Type 0) : Type 0 where
  pub contract : Caller Bound

pub record TransactorRaw (Bound : Type 0) : Type 0 where
  pub contract : Transactor Bound

module _ {W Bound CallOpts TransactOpts Transaction : Type 0}
    (lib : Bind W Bound CallOpts TransactOpts Transaction) where
  unfoldable pub raw_call : Raw Bound → CallOpts → String → List Any → Effect W (List Any)
  raw_call r opts method params = lib.call (r.contract.caller.contract) opts method params

  unfoldable pub raw_transfer : Raw Bound → TransactOpts → Effect W Transaction
  raw_transfer r opts = lib.transfer (r.contract.transactor.contract) opts

  unfoldable pub raw_transact : Raw Bound → TransactOpts → String → List Any → Effect W Transaction
  raw_transact r opts method params =
      lib.transact (r.contract.transactor.contract) opts method params

  unfoldable pub caller_raw_call :
      CallerRaw Bound → CallOpts → String → List Any → Effect W (List Any)
  caller_raw_call r opts method params = lib.call (r.contract.contract) opts method params

  unfoldable pub transactor_raw_transfer : TransactorRaw Bound → TransactOpts → Effect W Transaction
  transactor_raw_transfer r opts = lib.transfer (r.contract.contract) opts

  unfoldable pub transactor_raw_transact :
      TransactorRaw Bound → TransactOpts → String → List Any → Effect W Transaction
  transactor_raw_transact r opts method params =
      lib.transact (r.contract.contract) opts method params
