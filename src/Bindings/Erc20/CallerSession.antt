-- ===== src/Bindings/Erc20/CallerSession.antt =====
-- The methods of a session for calls alone of contracts/bindings/ERC20Mock/binding.go, each the method of the contract with the
-- options of the session.
use blockless_avs_tools.Base.{ℕ, ℤ, Option}
use blockless_avs_tools.Base.Calls.{Call}
use blockless_avs_tools.Bindings.Values.{Bind}
use blockless_avs_tools.Bindings.Handles.{CallerSession, call_in_caller_session}
use blockless_avs_tools.Bindings.Erc20.Reads

module _ {W Bound CallOpts TransactOpts Transaction : Type 0}
    (lib : Bind W Bound CallOpts TransactOpts Transaction) where
  unfoldable pub allowance : CallerSession Bound CallOpts → ℕ → ℕ → Call W (Option ℤ)
  allowance = call_in_caller_session (Reads.allowance lib)

  unfoldable pub balance_of : CallerSession Bound CallOpts → ℕ → Call W (Option ℤ)
  balance_of = call_in_caller_session (Reads.balance_of lib)

  unfoldable pub total_supply : CallerSession Bound CallOpts → Call W (Option ℤ)
  total_supply = call_in_caller_session (Reads.total_supply lib)
