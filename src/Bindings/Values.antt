-- ===== src/Bindings/Values.antt =====
-- What the generated code of contracts/bindings shares: `[]interface{}` of the arguments and the
-- results of a contract's method, and the call of a method by its name. `bind.BoundContract` and
-- `abi.ConvertType` of go-ethereum are parameters.
use blockless_avs_tools.Base.{
  ℕ, ℤ, String, List, Bool, Option, none, some, message, Result, err, get_elem?, ok_or,
}
use blockless_avs_tools.Base.Effects.{Effect}
use blockless_avs_tools.Base.Calls.{Call, ◌>>=◌, run, or_panic}
use blockless_avs_tools.Bindings.{
  Price, OracleRequest, Bn254G1Point, Bn254G2Point, NonSignerStakesAndSignature, QuorumStakeTotals,
  SignatureWithSaltAndExpiry,
}

-- An `interface{}`: a Go type that the binding packs or reads, with its value. A nil `*big.Int` is
-- none.
pub data Any : Type 0 where
  uint8 uint32 address : ℕ → Any
  big_int : Option ℤ → Any
  boolean : Bool → Any
  text : String → Any
  bytes bytes32 addresses : List ℕ → Any
  price_struct : Price → Any
  request_struct : OracleRequest → Any
  g1_struct : Bn254G1Point → Any
  g2_struct : Bn254G2Point → Any
  stakes_struct : NonSignerStakesAndSignature → Any
  totals_struct : QuorumStakeTotals → Any
  signature_struct : SignatureWithSaltAndExpiry → Any

-- `abi.ConvertType` to the types that the binding asks for, none where it panics.
pub record Converters : Type 0 where
  pub to_uint32 : Any → Option ℕ
  pub to_address : Any → Option ℕ
  pub to_big_int : Any → Option (Option ℤ)
  pub to_boolean : Any → Option Bool
  pub to_text : Any → Option String
  pub to_bytes32 : Any → Option (List ℕ)
  pub to_addresses : Any → Option (List ℕ)
  pub to_price : Any → Option Price
  pub to_stake_totals : Any → Option QuorumStakeTotals

-- `Call`, `Transact` and `Transfer` of a `bind.BoundContract`.
pub record Bind (W Bound CallOpts TransactOpts Transaction : Type 0) : Type 0 where
  pub call : Bound → CallOpts → String → List Any → Effect W (List Any)
  pub transact : Bound → TransactOpts → String → List Any → Effect W Transaction
  pub transfer : Bound → TransactOpts → Effect W Transaction
  pub convert_type : Converters

-- `*abi.ConvertType(out[i], new(T)).(*T)` panics where there is no such result and where it does not
-- convert.
abbrev pub out_at : {A : Type 0} → (Any → Option A) → List Any → ℕ → Result A
out_at convert out i = elim (get_elem? out i) [
  | none ↦ err (message "index out of range")
  | some value ↦ ok_or (convert value) (message "cannot convert")
]

module _ {W Bound CallOpts TransactOpts Transaction : Type 0}
    (lib : Bind W Bound CallOpts TransactOpts Transaction) where
  -- A method with one result.
  abbrev pub call_one :
      {A : Type 0} → Bound → CallOpts → String → List Any → (Any → Option A) → Call W A
  call_one contract opts method params convert = do
    out ← run (lib.call contract opts method params)
    or_panic (out_at convert out 0)
