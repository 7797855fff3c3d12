-- ===== src/Bindings.antt =====
-- The structs of contracts/bindings/BlocklessAVS/binding.go that the Go programs fill and send.
-- `*big.Int` may be nil: it is `Option ℤ` in a price, whose zero value has a nil pointer.
pub mod Values
pub mod Handles
pub mod Raw
pub mod Abi
pub mod Iterator
pub mod Watch
pub mod Avs
pub mod Examples
pub mod Erc20
use blockless_avs_tools.Base.{ℕ, ℤ, String, List, [], Option, none}

-- `IBlocklessAVSPrice`.
pub record Price : Type 0 where
  pub symbol : String
  pub price : Option ℤ
  pub timestamp : ℕ  -- uint32

-- `IBlocklessAVSOracleRequest`.
pub record OracleRequest : Type 0 where
  pub symbol : String
  pub reference_block_number : ℕ  -- uint32
  pub quorum_numbers : List ℕ  -- []byte
  pub quorum_threshold_percentage : ℕ  -- uint8

-- `BN254G1Point` and `BN254G2Point`; `[2]*big.Int` is a pair.
pub record Bn254G1Point : Type 0 where
  pub x : ℕ
  pub y : ℕ

pub record Bn254G2Point : Type 0 where
  pub x : ℕ × ℕ
  pub y : ℕ × ℕ

-- `IBLSSignatureCheckerNonSignerStakesAndSignature`.
pub record NonSignerStakesAndSignature : Type 0 where
  pub non_signer_quorum_bitmap_indices : List ℕ
  pub non_signer_pubkeys : List Bn254G1Point
  pub quorum_apks : List Bn254G1Point
  pub apk_g2 : Bn254G2Point
  pub sigma : Bn254G1Point
  pub quorum_apk_indices : List ℕ
  pub total_stake_indices : List ℕ
  pub non_signer_stake_indices : List (List ℕ)

-- `IBLSSignatureCheckerQuorumStakeTotals`.
pub record QuorumStakeTotals : Type 0 where
  pub signed_stake_for_quorum : List ℕ
  pub total_stake_for_quorum : List ℕ

-- `ISignatureUtilsSignatureWithSaltAndExpiry`.
pub record SignatureWithSaltAndExpiry : Type 0 where
  pub signature : List ℕ
  pub salt : List ℕ
  pub expiry : Option ℤ

-- `IBlocklessAVSOraclePriceResponseMetadata`.
pub record OraclePriceResponseMetadata : Type 0 where
  pub block_number : ℕ  -- uint32
  pub hash_of_non_signers : List ℕ

-- The zero values that Go gives for a missing map entry.
abbrev pub zero_price : Price
zero_price = record { symbol = ""; price = none; timestamp = 0 }

abbrev pub zero_oracle_request : OracleRequest
zero_oracle_request = record {
  symbol = "";
  reference_block_number = 0;
  quorum_numbers = [];
  quorum_threshold_percentage = 0;
}
