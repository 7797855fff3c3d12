-- ===== src/Core/Points.antt =====
-- `ConvertToBN254G1Point` and `ConvertToBN254G2Point` of core/utils.go. The curve points of the
-- SDK are pairs of field elements; `BigInt` of gnark-crypto is the parameter `big_int`.
use blockless_avs_tools.Base.{ℕ}
use blockless_avs_tools.Bindings.{Bn254G1Point, Bn254G2Point}

-- `bls.G1Point`, an affine point.
pub record G1Point (Fp : Type 0) : Type 0 where
  pub x : Fp
  pub y : Fp

-- A coordinate of `bls.G2Point`: A0 + A1 u.
pub record E2 (Fp : Type 0) : Type 0 where
  pub a0 : Fp
  pub a1 : Fp

pub record G2Point (Fp : Type 0) : Type 0 where
  pub x : E2 Fp
  pub y : E2 Fp

module _ {Fp : Type 0} (big_int : Fp → ℕ) where
  unfoldable pub convert_to_bn254_g1_point : G1Point Fp → Bn254G1Point
  convert_to_bn254_g1_point input = record { x = big_int input.x; y = big_int input.y }

  -- The imaginary part comes first.
  unfoldable pub convert_to_bn254_g2_point : G2Point Fp → Bn254G2Point
  convert_to_bn254_g2_point input = record {
    x = (big_int input.x.a1, big_int input.x.a0);
    y = (big_int input.y.a1, big_int input.y.a0);
  }
