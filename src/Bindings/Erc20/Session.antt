-- ===== src/Bindings/Erc20/Session.antt =====
-- The methods of a session of contracts/bindings/ERC20Mock/binding.go, each the method of the contract with the
-- options of the session.
use blockless_avs_tools.Base.{ℕ, ℤ, Option}
use blockless_avs_tools.Base.Effects.{Effect}
use blockless_avs_tools.Base.Calls.{Call}
use blockless_avs_tools.Bindings.Values.{Bind}
use blockless_avs_tools.Bindings.Handles.{Session, call_in_session, transact_in_session}
use blockless_avs_tools.Bindings.Erc20.Reads
use blockless_avs_tools.Bindings.Erc20.Writes

module _ {W Bound CallOpts TransactOpts Transaction : Type 0}
    (lib : Bind W Bound CallOpts TransactOpts Transaction) where
  unfoldable pub allowance : Session Bound CallOpts TransactOpts → ℕ → ℕ → Call W (Option ℤ)
  allowance = call_in_session (Reads.allowance lib)

  unfoldable pub balance_of : Session Bound CallOpts TransactOpts → ℕ → Call W (Option ℤ)
  balance_of = call_in_session (Reads.balance_of lib)

  unfoldable pub total_supply : Session Bound CallOpts TransactOpts → Call W (Option ℤ)
  total_supply = call_in_session (Reads.total_supply lib)

  unfoldable pub approve : Session Bound CallOpts TransactOpts → ℕ → Option ℤ → Effect W Transaction
  approve = transact_in_session (Writes.approve lib)

  unfoldable pub mint : Session Bound CallOpts TransactOpts → ℕ → Option ℤ → Effect W Transaction
  mint = transact_in_session (Writes.mint lib)

  unfoldable pub transfer :
      Session Bound CallOpts TransactOpts → ℕ → Option ℤ → Effect W Transaction
  transfer = transact_in_session (Writes.transfer lib)

  unfoldable pub transfer_from :
      Session Bound CallOpts TransactOpts → ℕ → ℕ → Option ℤ → Effect W Transaction
  transfer_from = transact_in_session (Writes.transfer_from lib)
