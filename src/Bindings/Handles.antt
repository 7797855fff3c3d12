-- ===== src/Bindings/Handles.antt =====
-- The structs through which the generated code of contracts/bindings reaches a contract, their
-- constructors, and the sessions. `bind` of go-ethereum is a parameter; the text of the ABI and the
-- compiled code are what `get_abi` and `deploy_contract` stand for.
use blockless_avs_tools.Base.{ℕ, Option, none, some, message, Result, ok_or}
use blockless_avs_tools.Base.Effects.{Effect}
use blockless_avs_tools.Base.Calls.{Call, ◌>>=◌, run, check, or_panic, pure}

-- `ContractBlocklessAVSCaller`, `…Transactor` and `…Filterer`.
pub record Caller (Bound : Type 0) : Type 0 where
  pub contract : Bound

pub record Transactor (Bound : Type 0) : Type 0 where
  pub contract : Bound

pub record Filterer (Bound : Type 0) : Type 0 where
  pub contract : Bound

-- `ContractBlocklessAVS`.
pub record Handle (Bound : Type 0) : Type 0 where
  pub caller : Caller Bound
  pub transactor : Transactor Bound
  pub filterer : Filterer Bound

-- `ContractBlocklessAVSSession`, `…CallerSession` and `…TransactorSession`.
pub record Session (Bound CallOpts TransactOpts : Type 0) : Type 0 where
  pub contract : Handle Bound
  pub call_opts : CallOpts
  pub transact_opts : TransactOpts

pub record CallerSession (Bound CallOpts : Type 0) : Type 0 where
  pub contract : Caller Bound
  pub call_opts : CallOpts

pub record TransactorSession (Bound TransactOpts : Type 0) : Type 0 where
  pub contract : Transactor Bound
  pub transact_opts : TransactOpts

-- A method of a session is the caller's or the transactor's with the session's options.
module _ {Bound CallOpts TransactOpts A : Type 0} where
  unfoldable pub call_in_session :
      (Caller Bound → CallOpts → A) → Session Bound CallOpts TransactOpts → A
  call_in_session method s = method (s.contract.caller) s.call_opts

  unfoldable pub transact_in_session :
      (Transactor Bound → TransactOpts → A) → Session Bound CallOpts TransactOpts → A
  transact_in_session method s = method (s.contract.transactor) s.transact_opts

unfoldable pub call_in_caller_session :
    {Bound CallOpts A : Type 0} → (Caller Bound → CallOpts → A) → CallerSession Bound CallOpts → A
call_in_caller_session method s = method s.contract s.call_opts

unfoldable pub transact_in_transactor_session :
    {Bound TransactOpts A : Type 0}
    → (Transactor Bound → TransactOpts → A)
    → TransactorSession Bound TransactOpts
    → A
transact_in_transactor_session method s = method s.contract s.transact_opts

-- `MetaData.GetAbi`, which may give a nil pointer, `NewBoundContract`, with a nil backend for none,
-- and `DeployContract` of the compiled code with the arguments `Args` of the constructor, which gives an address, a transaction and the contract.
pub record BindLib (W Abi Backend Bound TransactOpts Transaction Args : Type 0) : Type 0 where
  pub get_abi : Result (Option Abi)
  pub new_bound_contract : ℕ → Abi → Option Backend → Option Backend → Option Backend → Bound
  pub deploy_contract : TransactOpts → Abi → Backend → Args → Effect W (ℕ × Transaction × Bound)

abbrev pub handle_of : {Bound : Type 0} → Bound → Handle Bound
handle_of contract = record {
  caller = record { contract = contract };
  transactor = record { contract = contract };
  filterer = record { contract = contract };
}

module _ {W Abi Backend Bound TransactOpts Transaction Args : Type 0}
    (lib : BindLib W Abi Backend Bound TransactOpts Transaction Args) where
  -- `bindContractBlocklessAVS`, which dereferences the ABI.
  unfoldable pub bind_contract : ℕ → Option Backend → Option Backend → Option Backend → Call W Bound
  bind_contract address caller transactor filterer = do
    parsed ← check lib.get_abi
    abi ← or_panic (ok_or parsed (message "nil pointer dereference"))
    pure (lib.new_bound_contract address abi caller transactor filterer)

  unfoldable pub new_contract : ℕ → Backend → Call W (Handle Bound)
  new_contract address backend = do
    contract ← bind_contract address (some backend) (some backend) (some backend)
    pure (handle_of contract)

  unfoldable pub new_caller : ℕ → Backend → Call W (Caller Bound)
  new_caller address caller = do
    contract ← bind_contract address (some caller) none none
    pure (record { contract = contract })

  unfoldable pub new_transactor : ℕ → Backend → Call W (Transactor Bound)
  new_transactor address transactor = do
    contract ← bind_contract address none (some transactor) none
    pure (record { contract = contract })

  unfoldable pub new_filterer : ℕ → Backend → Call W (Filterer Bound)
  new_filterer address filterer = do
    contract ← bind_contract address none none (some filterer)
    pure (record { contract = contract })

  -- `DeployContractBlocklessAVS`.
  unfoldable pub deploy_contract :
      TransactOpts → Backend → Args → Call W (ℕ × Transaction × Handle Bound)
  deploy_contract auth backend args = do
    parsed ← check lib.get_abi
    abi ← check (ok_or parsed (message "GetABI returned nil"))
    deployed ← run (lib.deploy_contract auth abi backend args)
    pure (deployed.0, deployed.1, handle_of deployed.2)
