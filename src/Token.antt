-- ===== src/Token.antt =====
-- contracts/src/ERC20Mock.sol: the token that a strategy holds. A call reverts, with a reason, or
-- gives the new state and the event that it emits. `_burn`, `_approve` and `_spendAllowance` are
-- internal and nothing calls them.
pub mod Supply
mod Examples
use blockless_avs_tools.Base.{
  ℕ, ◌+◌, ◌-◌, ◌%◌, ◌^◌, Bool, true, false, not, Dict, lookup_or, insert, ltb, leb, nat_beq, nat_eq,
  if◌then◌else◌,
}

-- Why a call reverts.
pub data Revert : Type 0 where
  transfer_from_zero_address transfer_to_zero_address amount_exceeds_balance : Revert
  mint_to_zero_address supply_overflow : Revert

-- `_balances` and `_totalSupply`; `_allowances` is never written.
pub record Token : Type 0 where
  pub balances : Dict ℕ ℕ
  pub total_supply : ℕ

-- The event `Transfer`.
pub record Transfer : Type 0 where
  pub sender : ℕ
  pub recipient : ℕ
  pub value : ℕ

pub data Tx : Type 0 where
  done : Token → Transfer → Tx
  reverted : Revert → Tx

abbrev pub require : Bool → Revert → Tx → Tx
require true r k = k
require false r k = reverted r

unfoldable pub balance_of : ℕ → Token → ℕ
balance_of account t = lookup_or account t.balances 0

-- `unchecked` arithmetic of uint256 wraps around.
abbrev pub add_unchecked : ℕ → ℕ → ℕ
add_unchecked a b = (a + b) % 2 ^ 256

-- `_balances[account] += amount`, unchecked.
unfoldable pub credit : ℕ → ℕ → Token → Token
credit account amount t = record t {
  balances = insert account (add_unchecked (balance_of account t) amount) t.balances;
}

-- `_transfer`. The balance is tested before it is taken from.
unfoldable pub transfer_between : ℕ → ℕ → ℕ → Token → Tx
transfer_between sender recipient amount t =
    require (not (nat_beq sender 0)) transfer_from_zero_address (
      require (not (nat_beq recipient 0)) transfer_to_zero_address (
        require (leb amount (balance_of sender t)) amount_exceeds_balance (
          let debited : Token = record t {
            balances = insert sender (balance_of sender t - amount) t.balances;
          } in
          done (credit recipient amount debited)
            (record { sender = sender; recipient = recipient; value = amount }))))

-- `transfer` of a message's sender.
unfoldable pub transfer : ℕ → ℕ → ℕ → Token → Tx
transfer msg_sender recipient amount t = transfer_between msg_sender recipient amount t

-- `transferFrom`, which does not look at the caller's allowance.
unfoldable pub transfer_from : ℕ → ℕ → ℕ → ℕ → Token → Tx
transfer_from msg_sender sender recipient amount t = transfer_between sender recipient amount t

-- `_mint`. The sum is checked: it reverts above a uint256.
unfoldable pub mint : ℕ → ℕ → Token → Tx
mint account amount t = require (not (nat_beq account 0)) mint_to_zero_address (
    require (ltb (t.total_supply + amount) (2 ^ 256)) supply_overflow (
      done (credit account amount (record t { total_supply = t.total_supply + amount }))
        (record { sender = 0; recipient = account; value = amount })))
