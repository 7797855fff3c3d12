-- ===== src/Core/Digest.antt =====
-- `AbiEncodePriceResponse` and `GetPriceDigest` of core/utils.go. go-ethereum's abi package and
-- the Keccak hash of x/crypto are parameters.
pub mod Laws
use blockless_avs_tools.Base.{
  ℕ, ◌+◌, ◌-◌, ◌≡◌, refl, String, List, [], ◌∷◌, ◌++◌, arith, Result, ok, err, ◌>>=◌, length, take,
  drop, replicate, >>=-eq-ok, length-append,
}
use blockless_avs_tools.Bindings.{Price}

-- `abi.ArgumentMarshaling`, of which the program fills the name and the type.
pub record ArgumentMarshaling : Type 0 where
  pub name : String
  pub abi_type : String

-- `abi.NewType`, `abi.Arguments.Pack` and `sha3.NewLegacyKeccak256` with one `Write` and a `Sum`.
pub record AbiLib (T : Type 0) : Type 0 where
  pub new_type : String → String → List ArgumentMarshaling → Result T
  pub pack : List T → Price → Result (List ℕ)
  pub keccak256 : List ℕ → List ℕ

abbrev pub price_components : List ArgumentMarshaling
price_components =
    record { name = "symbol"; abi_type = "string" }
    ∷ record { name = "price"; abi_type = "uint256" }
    ∷ record { name = "timestamp"; abi_type = "uint32" }
    ∷ []

-- Go's `copy(dst, src)` into an array: what `src` does not reach stays.
abbrev pub copy : List ℕ → List ℕ → List ℕ
copy [] src = []
copy (d ∷ dst) [] = d ∷ dst
copy (d ∷ dst) (s ∷ src) = s ∷ copy dst src

module _ {T : Type 0} (lib : AbiLib T) where
  unfoldable pub abi_encode_price_response : Price → Result (List ℕ)
  abi_encode_price_response h = do
    price_type ← lib.new_type "tuple" "" price_components
    bytes ← lib.pack (price_type ∷ []) h
    ok bytes

  -- `Sum(nil)` has 32 bytes, so its slice `[:32]` does not panic.
  unfoldable pub get_price_digest : Price → Result (List ℕ)
  get_price_digest p = do
    encode_price_byte ← abi_encode_price_response p
    ok (copy (replicate 32 0) (take 32 (lib.keccak256 encode_price_byte)))
