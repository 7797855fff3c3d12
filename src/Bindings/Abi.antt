-- ===== src/Bindings/Abi.antt =====
-- The ABI that a binding holds, and a `bind.BoundContract` that refuses what the ABI does not have.
pub mod Laws
use blockless_avs_tools.Base.{
  String, List, [], ◌∷◌, map, Bool, true, false, Option, none, some, ◌≡◌, message, ok, err,
  string_eq, ℕ, ℤ, ◌==◌, ◌&&◌, if◌then◌else◌, Dict, lookup,
}
use blockless_avs_tools.Base.Effects.{lift}
use blockless_avs_tools.Bindings.{Price, QuorumStakeTotals}
use blockless_avs_tools.Bindings.Values.{
  Any, uint8, uint32, address, big_int, boolean, text, bytes, bytes32, addresses, price_struct,
  request_struct, g1_struct, g2_struct, stakes_struct, totals_struct, signature_struct, Converters,
  Bind,
}

-- The types of a method's inputs and outputs; a struct by its `internalType`.
pub record Signature : Type 0 where
  pub inputs : List String
  pub outputs : List String

abbrev pub Abi : Type 0
Abi = Dict String Signature

-- The ABI type that a Go value packs to or was unpacked from.
abbrev pub type_of : Any → String
type_of (uint8 _) = "uint8"
type_of (uint32 _) = "uint32"
type_of (address _) = "address"
type_of (big_int _) = "uint256"
type_of (boolean _) = "bool"
type_of (text _) = "string"
type_of (bytes _) = "bytes"
type_of (bytes32 _) = "bytes32"
type_of (addresses _) = "address[]"
type_of (price_struct _) = "structIBlocklessAVS.Price"
type_of (request_struct _) = "structIBlocklessAVS.OracleRequest"
type_of (g1_struct _) = "structBN254.G1Point"
type_of (g2_struct _) = "structBN254.G2Point"
type_of (stakes_struct _) = "structIBLSSignatureChecker.NonSignerStakesAndSignature"
type_of (totals_struct _) = "structIBLSSignatureChecker.QuorumStakeTotals"
type_of (signature_struct _) = "structISignatureUtils.SignatureWithSaltAndExpiry"

abbrev pub same_types : List String → List Any → Bool
same_types [] [] = true
same_types [] (_ ∷ _) = false
same_types (_ ∷ _) [] = false
same_types (t ∷ ts) (v ∷ vs) = t == type_of v && same_types ts vs

-- The ABI has the method, and it takes arguments of these types.
abbrev pub fits : Abi → String → List Any → Bool
fits abi method args = elim (lookup method abi) [
  | none ↦ false
  | some signature ↦ same_types signature.inputs args
]

module _ {W Bound CallOpts TransactOpts Transaction : Type 0}
    (lib : Bind W Bound CallOpts TransactOpts Transaction) where
  -- A method that the ABI does not have, or whose arguments do not pack, is an error.
  abbrev pub strict : Abi → Bind W Bound CallOpts TransactOpts Transaction
  strict abi = record lib {
    call = λ contract opts method args.
        if fits abi method args
        then lib.call contract opts method args
        else lift (err (message "abi"));
    transact = λ contract opts method args.
        if fits abi method args
        then lib.transact contract opts method args
        else lift (err (message "abi"));
  }

  -- What a call returns has the types that the ABI gives to its outputs.
  abbrev pub AnswersAbi : Abi → Type 0
  AnswersAbi abi =
      (contract : Bound) (opts : CallOpts) (method : String) (args out : List Any) (w w' : W)
      (signature : Signature)
      → lookup method abi ≡ some signature
      → lib.call contract opts method args w ≡ (ok out, w')
      → map type_of out ≡ signature.outputs

-- A value converts to its own type.
pub record ConvertsOwnTypes (convert_type : Converters) : Type 0 where
  pub own_uint32 : (n : ℕ) → convert_type.to_uint32 (uint32 n) ≡ some n
  pub own_address : (n : ℕ) → convert_type.to_address (address n) ≡ some n
  pub own_big_int : (n : Option ℤ) → convert_type.to_big_int (big_int n) ≡ some n
  pub own_boolean : (b : Bool) → convert_type.to_boolean (boolean b) ≡ some b
  pub own_text : (s : String) → convert_type.to_text (text s) ≡ some s
  pub own_bytes32 : (b : List ℕ) → convert_type.to_bytes32 (bytes32 b) ≡ some b
  pub own_addresses : (a : List ℕ) → convert_type.to_addresses (addresses a) ≡ some a
  pub own_price : (p : Price) → convert_type.to_price (price_struct p) ≡ some p
  pub own_stake_totals :
      (t : QuorumStakeTotals) → convert_type.to_stake_totals (totals_struct t) ≡ some t

-- Every value of an ABI type converts with a function.
abbrev pub Converts : {A : Type 0} → String → (Any → Option A) → Type 0
Converts {A} t convert = (v : Any) → type_of v ≡ t → (a : A) × (convert v ≡ some a)
