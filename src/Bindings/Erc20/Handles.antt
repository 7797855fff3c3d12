-- ===== src/Bindings/Erc20/Handles.antt =====
-- The constructors of contracts/bindings/ERC20Mock/binding.go, which are those of the other binding
-- over this contract's ABI and code; the token's constructor has no arguments. The raw handles are those
-- of the other binding too.
use blockless_avs_tools.Base.{ℕ, Option}
use blockless_avs_tools.Base.Calls.{Call}
use blockless_avs_tools.Bindings.Handles
use blockless_avs_tools.Bindings.Handles.{Caller, Transactor, Filterer, Handle, BindLib}

module _ {W Abi Backend Bound TransactOpts Transaction : Type 0}
    (lib : BindLib W Abi Backend Bound TransactOpts Transaction (Unit {0})) where
  unfoldable pub bind_contract_erc20_mock :
      ℕ → Option Backend → Option Backend → Option Backend → Call W Bound
  bind_contract_erc20_mock = Handles.bind_contract lib

  unfoldable pub new_contract_erc20_mock : ℕ → Backend → Call W (Handle Bound)
  new_contract_erc20_mock = Handles.new_contract lib

  unfoldable pub new_contract_erc20_mock_caller : ℕ → Backend → Call W (Caller Bound)
  new_contract_erc20_mock_caller = Handles.new_caller lib

  unfoldable pub new_contract_erc20_mock_transactor : ℕ → Backend → Call W (Transactor Bound)
  new_contract_erc20_mock_transactor = Handles.new_transactor lib

  unfoldable pub new_contract_erc20_mock_filterer : ℕ → Backend → Call W (Filterer Bound)
  new_contract_erc20_mock_filterer = Handles.new_filterer lib

  unfoldable pub deploy_contract_erc20_mock :
      TransactOpts → Backend → Call W (ℕ × Transaction × Handle Bound)
  deploy_contract_erc20_mock auth backend = Handles.deploy_contract lib auth backend tt
