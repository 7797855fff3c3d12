-- ===== src/Contract.antt =====
-- contracts/src/BlocklessAVS.sol: the oracle's storage and the transactions that change it. A
-- transaction either reverts, with a reason, or gives the new storage. `checkSignatures` of the
-- middleware and the ABI hash are parameters.
pub mod Thresholds
pub mod Acceptance
pub mod Update
pub mod History
pub mod Replay
pub mod Signed
pub mod Examples
use blockless_avs_tools.Base.{
  ℕ, suc, ◌+◌, ◌-◌, ◌*◌, ◌^◌, String, List, [], ◌∷◌, Option, none, some, Bool, true, false, ◌||◌,
  Dict, lookup_or, insert, get_elem?, u8, u32, ltb, leb, nat_beq, not, if◌then◌else◌, string_eq,
  length,
}
use blockless_avs_tools.Bindings.{OracleRequest, NonSignerStakesAndSignature, QuorumStakeTotals}

-- `struct Price`: a uint256 price in 6 decimals, a uint32 timestamp.
pub record OnchainPrice : Type 0 where
  pub symbol : String
  pub price : ℕ
  pub timestamp : ℕ

abbrev pub zero_onchain_price : OnchainPrice
zero_onchain_price = record { symbol = ""; price = 0; timestamp = 0 }

-- Why a transaction reverts, in the order of the source's checks.
pub data Revert : Type 0 where
  not_owner not_aggregator reference_block_in_future reference_block_overflow : Revert
  reference_block_too_old bad_signatures missing_quorum stake_overflow : Revert
  below_threshold price_not_positive timestamp_in_future underflow : Revert
  timestamp_outside_window already_updated : Revert

pub data Tx (A : Type 0) : Type 0 where
  done : A → Tx A
  reverted : Revert → Tx A

infixl 5 ◌>>=◌ ◌>>◌
abbrev pub ◌>>=◌ : {A B : Type 0} → Tx A → (A → Tx B) → Tx B
done a >>= f = f a
reverted r >>= f = reverted r

abbrev pub ◌>>◌ : {B : Type 0} → Tx (Unit {0}) → Tx B → Tx B
m >> k = m >>= λ _. k

-- Solidity's `require`.
abbrev pub require : Bool → Revert → Tx (Unit {0})
require true r = done tt
require false r = reverted r

-- The storage that the oracle's functions use.
pub record Storage : Type 0 where
  pub owner : ℕ
  pub aggregator : ℕ
  pub prices : Dict String OnchainPrice

-- `msg.sender`, `block.number`, `block.timestamp`.
pub record Env : Type 0 where
  pub sender : ℕ
  pub block_number : ℕ
  pub block_timestamp : ℕ

-- The event `OracleUpdate` with its metadata.
pub record OracleUpdate : Type 0 where
  pub price_response : OnchainPrice
  pub block_number : ℕ
  pub hash_of_non_signers : List ℕ

-- The event `AggregatorUpdated`.
pub record AggregatorUpdated : Type 0 where
  pub previous_aggregator : ℕ
  pub new_aggregator : ℕ

abbrev pub block_stale_measure : ℕ
block_stale_measure = 150

abbrev pub threshold_denominator : ℕ
threshold_denominator = 100

-- `1 minutes`.
abbrev pub time_window : ℕ
time_window = 60

-- `mapping(string => Price)` gives the zero price for a symbol that was never written.
unfoldable pub price : String → Storage → OnchainPrice
price symbol s = lookup_or symbol s.prices zero_onchain_price

-- `initialize`, without the pauser. The modifier `initializer` lets it run once.
unfoldable pub initialize : ℕ → ℕ → Storage → Storage × AggregatorUpdated
initialize initial_owner aggregator s = (
  record s { owner = initial_owner; aggregator = aggregator },
  record { previous_aggregator = 0; new_aggregator = aggregator },
)

-- The modifiers `onlyOwner` and `onlyAggregator` guard these.
unfoldable pub set_aggregator : Env → ℕ → Storage → Tx (Storage × AggregatorUpdated)
set_aggregator env new_aggregator s = do
  require (nat_beq env.sender s.owner) not_owner
  done (
    record s { aggregator = new_aggregator },
    record { previous_aggregator = s.aggregator; new_aggregator = new_aggregator },
  )

unfoldable pub freeze_operator : Env → ℕ → Storage → Tx Storage
freeze_operator env operator_addr s = do
  require (nat_beq env.sender s.aggregator) not_aggregator
  done s

-- `validateOraclePrice`. `block.timestamp - timeWindow` is checked arithmetic: it reverts below 0.
unfoldable pub validate_oracle_price : Env → OnchainPrice → Storage → Tx (Unit {0})
unfolding price
validate_oracle_price env p s = do
  require (ltb 0 p.price) price_not_positive
  require (leb p.timestamp env.block_timestamp) timestamp_in_future
  require (leb time_window env.block_timestamp) underflow
  require (leb (env.block_timestamp - time_window) p.timestamp) timestamp_outside_window
  let prev_price = price p.symbol s
  require
      (ltb prev_price.timestamp (env.block_timestamp - time_window)
        || not (nat_beq prev_price.price p.price))
      already_updated

-- The loop over the quorums, `rest` of them from index `i` on. `totalStakeForQuorum[i]` is a
-- uint96 and so is its product with a uint8; the other product is a uint256 and cannot overflow.
unfoldable pub check_thresholds : ℕ → ℕ → ℕ → QuorumStakeTotals → Tx (Unit {0})
check_thresholds ℕ.zero i percentage totals = done tt
check_thresholds (suc rest) i percentage totals =
    let later = check_thresholds rest (i + 1) percentage totals in
    elim (get_elem? totals.signed_stake_for_quorum i) [
      | none ↦ reverted missing_quorum
      | some signed ↦ elim (get_elem? totals.total_stake_for_quorum i) [
        | none ↦ reverted missing_quorum
        | some total ↦
            require (ltb (total * u8 percentage) (2 ^ 96)) stake_overflow
            >> (require (leb (total * u8 percentage) (signed * threshold_denominator))
                  below_threshold
                >> later)
      ]
    ]

-- The middleware's `checkSignatures`, which reverts (`none`) on a bad signature, and
-- `keccak256(abi.encode(…))`.
pub record Checker : Type 0 where
  pub hash_price : OnchainPrice → List ℕ
  pub check_signatures :
      List ℕ → List ℕ → ℕ → NonSignerStakesAndSignature → Option (QuorumStakeTotals × List ℕ)

abbrev pub or_revert : {A : Type 0} → Option A → Revert → Tx A
or_revert none r = reverted r
or_revert (some a) r = done a

-- `updateOraclePrice`: the new storage and the event.
unfoldable pub update_oracle_price :
    Checker
    → Env
    → OracleRequest
    → OnchainPrice
    → NonSignerStakesAndSignature
    → Storage
    → Tx (Storage × OracleUpdate)
update_oracle_price checker env req p stakes s = do
  require (nat_beq env.sender s.aggregator) not_aggregator
  require (leb req.reference_block_number (u32 env.block_number)) reference_block_in_future
  require (ltb (req.reference_block_number + block_stale_measure) (2 ^ 32)) reference_block_overflow
  require (leb (u32 env.block_number) (req.reference_block_number + block_stale_measure))
      reference_block_too_old
  let msg = checker.hash_price p
  checked ←
      or_revert (checker.check_signatures msg req.quorum_numbers req.reference_block_number stakes)
        bad_signatures
  check_thresholds (length req.quorum_numbers) 0 req.quorum_threshold_percentage checked.0
  validate_oracle_price env p s
  done (
    record s { prices = insert p.symbol p s.prices },
    record {
      price_response = p;
      block_number = u32 env.block_number;
      hash_of_non_signers = checked.1;
    },
  )
