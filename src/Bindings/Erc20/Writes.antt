-- ===== src/Bindings/Erc20/Writes.antt =====
-- The transactors of contracts/bindings/ERC20Mock/binding.go: one transaction each.
use blockless_avs_tools.Base.{ℕ, ℤ, [], ◌∷◌, Option}
use blockless_avs_tools.Base.Effects.{Effect}
use blockless_avs_tools.Bindings.Values.{address, big_int, Bind}
use blockless_avs_tools.Bindings.Handles.{Transactor}

module _ {W Bound CallOpts TransactOpts Transaction : Type 0}
    (lib : Bind W Bound CallOpts TransactOpts Transaction) where
  unfoldable pub approve : Transactor Bound → TransactOpts → ℕ → Option ℤ → Effect W Transaction
  approve t opts arg0 arg1 =
      lib.transact (t.contract) opts "approve" (address arg0 ∷ big_int arg1 ∷ [])

  unfoldable pub mint : Transactor Bound → TransactOpts → ℕ → Option ℤ → Effect W Transaction
  mint t opts account amount =
      lib.transact (t.contract) opts "mint" (address account ∷ big_int amount ∷ [])

  unfoldable pub transfer : Transactor Bound → TransactOpts → ℕ → Option ℤ → Effect W Transaction
  transfer t opts recipient amount =
      lib.transact (t.contract) opts "transfer" (address recipient ∷ big_int amount ∷ [])

  unfoldable pub transfer_from :
      Transactor Bound → TransactOpts → ℕ → ℕ → Option ℤ → Effect W Transaction
  transfer_from t opts sender recipient amount =
      lib.transact (t.contract) opts "transferFrom"
        (address sender ∷ address recipient ∷ big_int amount ∷ [])
