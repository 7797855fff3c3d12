-- ===== src/Node/Api/Laws.antt =====
-- What the oracle's route asks of the operator, and what it answers.
use blockless_avs_tools.Base.{
  ℕ, String, List, [], ◌∷◌, ◌++◌, some, ok, err, GoError, ◌≡◌, ◌⊎◌, refl, Bool, true, false, none,
  inl, inr, arith, Result-cases, u32,
}
use blockless_avs_tools.Node.Api.{
  ResponseWriter, new_writer, set_content_type, write_header, write, http_error, Json, post_oracle,
}
use Prim.Native.String.{◌++◌ as append}

-- A post whose body cannot be decoded is answered with status 400 and asks nothing, whether or not
-- the operator's loop receives. For every other the symbol of the body is asked: if the loop
-- receives it, it does so exactly once, and the answer has status 200, even if the response could
-- not be encoded; if the loop does not, there is no answer.
pub post_oracle_lem :
    (json : Json) (loop_receives : Bool) (body : List ℕ) (now : ℕ) (requested : List String)
    → let (answer, requested') = post_oracle json loop_receives body now requested in
      ((e : GoError) × (w : ResponseWriter) × (json.decode_symbol body ≡ err e)
        × (answer ≡ some w)
        × (w.status ≡ some 400)
        × (requested' ≡ requested))
      ⊎ ((symbol : String) × (w : ResponseWriter) × (json.decode_symbol body ≡ ok symbol)
          × (loop_receives ≡ true)
          × (answer ≡ some w)
          × (w.status ≡ some 200)
          × (w.content_type ≡ some "application/json")
          × (requested' ≡ requested ++ symbol ∷ []))
      ⊎ ((symbol : String) × (json.decode_symbol body ≡ ok symbol)
          × (loop_receives ≡ false)
          × (answer ≡ none)
          × (requested' ≡ requested))
unfolding post_oracle
post_oracle_lem json false body now requested = elim (Result-cases (json.decode_symbol body)) [
  | inr (e, p) ↦
      inl (e, http_error "Invalid request body" 400 new_writer, p, ground arith, refl, ground arith)
  | inl (symbol, p) ↦ inr (inr (symbol, p, refl, ground arith, ground arith))
]
post_oracle_lem json true body now requested = elim (Result-cases (json.decode_symbol body)) [
  | inr (e, p) ↦
      inl (e, http_error "Invalid request body" 400 new_writer, p, ground arith, refl, ground arith)
  | inl (symbol, p) ↦
      let w = write_header 200 (set_content_type "application/json" new_writer) in
      elim (Result-cases (json.encode_response symbol (u32 now))) [
        | inl (text, q) ↦ inr (
            inl
              (symbol, write (append text "\n") w, p, refl, ground arith, refl, refl, ground arith))
        | inr (e, q) ↦ inr (
            inl (
              symbol,
              http_error "Error encoding response" 500 w,
              p,
              refl,
              ground arith,
              refl,
              refl,
              ground arith,
            ))
      ]
]
