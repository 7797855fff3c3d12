-- ===== src/Operator/Coingecko.antt =====
-- operator/coingecko.go. `http.Get`, `io.ReadAll`, `json.Unmarshal` into nested maps, and float64
-- arithmetic are parameters.
pub mod Laws
use Prim.Native.String.{◌++◌}
use blockless_avs_tools.Base.{
  ℕ, String, List, [], Result, ok, err, ◌>>=◌, wrap_err, ok_or, message, Dict, lookup, lookup_or,
  string_eq,
}

-- float64, with `math.Round`, the product and the conversion to `uint` of a 64-bit platform.
pub record Float64 (F : Type 0) : Type 0 where
  pub of_nat : ℕ → F
  pub mul : F → F → F
  pub round : F → F
  pub to_uint : F → ℕ

pub record Http (F Resp : Type 0) : Type 0 where
  pub get : String → Result Resp
  pub read_all : Resp → Result (List ℕ)
  pub unmarshal : List ℕ → Result (Dict String (Dict String F))

-- `fmt.Sprintf` puts the id in as it is.
abbrev pub price_url : String → String
price_url id = "https://api.coingecko.com/api/v3/simple/price?ids=" ++ (id ++ "&vs_currencies=usd")

module _ {F Resp : Type 0} (http : Http F Resp) where
  -- `result[id]["usd"]`: the inner map is nil, hence empty, where the id is missing.
  unfoldable pub get_price_by_id : String → Result F
  get_price_by_id id = do
    resp ← wrap_err "failed to get price" (http.get (price_url id))
    body ← wrap_err "failed to read response body" (http.read_all resp)
    result ← wrap_err "failed to unmarshal price" (http.unmarshal body)
    ok_or (lookup "usd" (lookup_or id result [])) (message "price not found")

unfoldable pub format_price_to_six_decimals : {F : Type 0} → Float64 F → F → ℕ
format_price_to_six_decimals float price =
    float.to_uint (float.round (float.mul price (float.of_nat 1_000_000)))
