-- ===== src/Operator/Coingecko/Laws.antt =====
-- When the price of an id is found, and which error says that it is not.
use blockless_avs_tools.Base.{
  ℕ, String, List, [], ok, err, GoError, message, wrap, wrap_err, >>=-eq-ok, wrap_err-eq-ok,
  ok_or-eq-ok, Dict, lookup, lookup_or, string_eq, ◌≡◌, ◌↔◌, some, none, arith,
}
use blockless_avs_tools.Operator.Coingecko.{Http, price_url, get_price_by_id}

module _ {F Resp : Type 0} (http : Http F Resp) (id : String) where
  -- The web's answer for an id: the parsed body of the page at its URL.
  abbrev pub Answers : Dict String (Dict String F) → Type 0
  Answers result =
      (resp : Resp) × (body : List ℕ) × (http.get (price_url id) ≡ ok resp)
      × (http.read_all resp ≡ ok body)
      × (http.unmarshal body ≡ ok result)

  inverted :
      (price : F)
      → get_price_by_id http id ≡ ok price
      → (result : Dict String (Dict String F)) × Answers result
        × (lookup "usd" (lookup_or id result []) ≡ some price)
  unfolding get_price_by_id
  inverted price h =
      let (resp, g, h') =
        >>=-eq-ok (wrap_err "failed to get price" (http.get (price_url id))) _ h in
      let (body, r, h'') =
        >>=-eq-ok (wrap_err "failed to read response body" (http.read_all resp)) _ h' in
      let (result, u, f) =
        >>=-eq-ok (wrap_err "failed to unmarshal price" (http.unmarshal body)) _ h'' in
      (
        result,
        (resp, body, wrap_err-eq-ok _ _ g, wrap_err-eq-ok _ _ r, wrap_err-eq-ok _ _ u),
        ok_or-eq-ok _ _ f,
      )

  -- A price is returned exactly when the page is read and parsed and has a "usd" entry under the
  -- id, and it is then that entry.
  pub get_price_by_id_iff :
      (price : F)
      → (get_price_by_id http id ≡ ok price) ↔ (
          (result : Dict String (Dict String F)) × Answers result
          × (lookup "usd" (lookup_or id result []) ≡ some price))
  unfolding get_price_by_id
  get_price_by_id_iff price =
      (λ h. inverted price h, λ (result, (resp, body, g, r, u), f). ground arith)

  -- A page that parses but has no such entry gives "price not found"; each earlier failure comes
  -- back wrapped in the message of its own step.
  pub get_price_by_id-errors :
      ((e : GoError)
        → http.get (price_url id) ≡ err e
        → get_price_by_id http id ≡ err (wrap "failed to get price" e))
      × ((resp : Resp) (e : GoError)
          → http.get (price_url id) ≡ ok resp
          → http.read_all resp ≡ err e
          → get_price_by_id http id ≡ err (wrap "failed to read response body" e))
      × ((resp : Resp) (body : List ℕ) (e : GoError)
          → http.get (price_url id) ≡ ok resp
          → http.read_all resp ≡ ok body
          → http.unmarshal body ≡ err e
          → get_price_by_id http id ≡ err (wrap "failed to unmarshal price" e))
      × ((result : Dict String (Dict String F))
          → Answers result
          → lookup "usd" (lookup_or id result []) ≡ none
          → get_price_by_id http id ≡ err (message "price not found"))
  unfolding get_price_by_id
  get_price_by_id-errors = (
    λ e g. ground arith,
    λ resp e g r. ground arith,
    λ resp body e g r u. ground arith,
    λ result (resp, body, g, r, u) f. ground arith,
  )
