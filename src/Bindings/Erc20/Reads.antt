-- ===== src/Bindings/Erc20/Reads.antt =====
-- The callers of contracts/bindings/ERC20Mock/binding.go: one call of a view function each.
use blockless_avs_tools.Base.{ℕ, ℤ, [], ◌∷◌, Option}
use blockless_avs_tools.Base.Calls.{Call, ◌>>=◌}
use blockless_avs_tools.Bindings.Values.{address, Bind, call_one}
use blockless_avs_tools.Bindings.Handles.{Caller}

module _ {W Bound CallOpts TransactOpts Transaction : Type 0}
    (lib : Bind W Bound CallOpts TransactOpts Transaction) where
  unfoldable pub allowance : Caller Bound → CallOpts → ℕ → ℕ → Call W (Option ℤ)
  unfolding ◌>>=◌
  allowance c opts owner spender =
      call_one lib (c.contract) opts "allowance" (address owner ∷ address spender ∷ [])
        (lib.convert_type.to_big_int)

  unfoldable pub balance_of : Caller Bound → CallOpts → ℕ → Call W (Option ℤ)
  unfolding ◌>>=◌
  balance_of c opts account =
      call_one lib (c.contract) opts "balanceOf" (address account ∷ [])
        (lib.convert_type.to_big_int)

  unfoldable pub total_supply : Caller Bound → CallOpts → Call W (Option ℤ)
  unfolding ◌>>=◌
  total_supply c opts =
      call_one lib (c.contract) opts "totalSupply" [] (lib.convert_type.to_big_int)
