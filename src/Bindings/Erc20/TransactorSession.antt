-- ===== src/Bindings/Erc20/TransactorSession.antt =====
-- The methods of a session for transactions alone of contracts/bindings/ERC20Mock/binding.go, each the method of the contract with the
-- options of the session.
use blockless_avs_tools.Base.{ℕ, ℤ, Option}
use blockless_avs_tools.Base.Effects.{Effect}
use blockless_avs_tools.Bindings.Values.{Bind}
use blockless_avs_tools.Bindings.Handles.{TransactorSession, transact_in_transactor_session}
use blockless_avs_tools.Bindings.Erc20.Writes

module _ {W Bound CallOpts TransactOpts Transaction : Type 0}
    (lib : Bind W Bound CallOpts TransactOpts Transaction) where
  unfoldable pub approve :
      TransactorSession Bound TransactOpts → ℕ → Option ℤ → Effect W Transaction
  approve = transact_in_transactor_session (Writes.approve lib)

  unfoldable pub mint : TransactorSession Bound TransactOpts → ℕ → Option ℤ → Effect W Transaction
  mint = transact_in_transactor_session (Writes.mint lib)

  unfoldable pub transfer :
      TransactorSession Bound TransactOpts → ℕ → Option ℤ → Effect W Transaction
  transfer = transact_in_transactor_session (Writes.transfer lib)

  unfoldable pub transfer_from :
      TransactorSession Bound TransactOpts → ℕ → ℕ → Option ℤ → Effect W Transaction
  transfer_from = transact_in_transactor_session (Writes.transfer_from lib)
