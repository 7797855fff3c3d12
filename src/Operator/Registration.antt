-- ===== src/Operator/Registration.antt =====
-- operator/registration.go. What it calls of the SDK and of the mock token's binding is a
-- parameter, on the state `W` of the chains.
pub mod Laws
use blockless_avs_tools.Base.{
  ℕ, zero, suc, ◌+◌, ◌*◌, String, List, [], ◌∷◌, Option, none, some, Bool, not, Result, ok, err,
  GoError, Outcome, u64, int64, ℤ, pos, replicate, bytes_beq,
}
use blockless_avs_tools.Base.Effects.{Effect, ◌>>=◌, ◌>>◌, lift}
use blockless_avs_tools.Base.Calls
use blockless_avs_tools.Base.Calls.{Call}

-- `eigenSdkTypes.Operator`, as far as it is filled.
pub record SdkOperator : Type 0 where
  pub address : ℕ
  pub earnings_receiver_address : ℕ

pub record RegistrationLib (W Opts Tx Erc20 Key Receipt : Type 0) : Type 0 where
  pub register_as_operator : SdkOperator → Effect W Receipt
  pub get_strategy_and_underlying_token : ℕ → Effect W ℕ
  pub get_erc20_mock : ℕ → Effect W Erc20
  pub get_no_send_tx_opts : W → (Option Opts × Option GoError) × W  -- both returned values
  pub mint : Erc20 → Option Opts → ℕ → ℕ → Effect W Tx
  pub send : Tx → Effect W Receipt
  pub deposit_erc20_into_strategy : ℕ → ℕ → Effect W Receipt
  pub block_number : Effect W ℕ
  pub block_by_number : ℤ → Effect W ℕ  -- the block's time
  pub register_operator_in_quorum_with_avs_registry_coordinator :
      Key → List ℕ → ℤ → List ℕ → String → Effect W Receipt
  pub get_operator_id : ℕ → Effect W (List ℕ)

-- `x, err := m()` with the error overwritten by the next call.
abbrev pub overwrite_error : {W A : Type 0} → (W → (A × Option GoError) × W) → Effect W A
overwrite_error m w = let ((a, _), w') = m w in (ok a, w')

abbrev pub done : {W A : Type 0} → Effect W A → Effect W (Unit {0})
done m = m >>= λ _. lift (ok tt)

-- `[32]byte{124}`.
abbrev pub registration_sig_salt : List ℕ
registration_sig_salt = 124 ∷ replicate 31 0

abbrev pub sig_valid_for_seconds : ℕ
sig_valid_for_seconds = 1_000_000

module _ {W Opts Tx Erc20 Key Receipt : Type 0} (lib : RegistrationLib W Opts Tx Erc20 Key Receipt)
    (operator_addr : ℕ) where
  unfoldable pub register_operator_with_eigenlayer : Effect W (Unit {0})
  register_operator_with_eigenlayer = done (
      lib.register_as_operator
        (record { address = operator_addr; earnings_receiver_address = operator_addr }))

  unfoldable pub deposit_into_strategy : ℕ → ℕ → Effect W (Unit {0})
  deposit_into_strategy strategy_addr amount = do
    token_addr ← lib.get_strategy_and_underlying_token strategy_addr
    contract_erc20_mock ← lib.get_erc20_mock token_addr
    tx_opts ← overwrite_error lib.get_no_send_tx_opts
    tx ← lib.mint contract_erc20_mock tx_opts operator_addr amount
    done (lib.send tx)
    done (lib.deposit_erc20_into_strategy strategy_addr amount)

  -- The sum of the block's time and the validity is an int64.
  unfoldable pub register_operator_with_avs : Key → Effect W (Unit {0})
  register_operator_with_avs key = do
    cur_block_num ← lib.block_number
    cur_block_time ← lib.block_by_number (int64 cur_block_num)
    done (
        lib.register_operator_in_quorum_with_avs_registry_coordinator key registration_sig_salt
          (int64 (cur_block_time + sig_valid_for_seconds)) (0 ∷ []) "Not Needed")

  -- Only the first step's error is let pass; the others are fatal.
  unfoldable pub register_operator_on_startup : Key → ℕ → Call W (Unit {0})
  register_operator_on_startup key mock_token_strategy_addr =
      Calls.◌>>◌ (Calls.or_log register_operator_with_eigenlayer) (
        Calls.◌>>◌
          (Calls.or_exit (deposit_into_strategy mock_token_strategy_addr 1000)
            "Error depositing into strategy")
          (Calls.or_exit (register_operator_with_avs key) "Error registering operator with avs"))

-- `OperatorStatus`, of which the keys are printed as they are.
pub record OperatorStatus : Type 0 where
  pub ecdsa_address : ℕ
  pub pubkeys_registered : Bool
  pub registered_with_avs : Bool
  pub operator_id : List ℕ

-- `PrintOperatorStatus`, up to the printing: `own_id` is the id that the operator has stored.
unfoldable pub operator_status :
    {W Opts Tx Erc20 Key Receipt : Type 0}
    → RegistrationLib W Opts Tx Erc20 Key Receipt
    → ℕ
    → List ℕ
    → Effect W OperatorStatus
operator_status lib operator_addr own_id = do
  operator_id ← lib.get_operator_id operator_addr
  lift (
      ok (record {
        ecdsa_address = operator_addr;
        pubkeys_registered = not (bytes_beq operator_id (replicate 32 0));
        registered_with_avs = not (bytes_beq own_id (replicate 32 0));
        operator_id = own_id;
      }))
