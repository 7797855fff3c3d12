-- ===== src/Node/Api.antt =====
-- node/pkg/api.go: the four routes. JSON is a parameter; `now` is the clock's Unix time. The
-- symbols that the operator's loop receives of `RequestOracleUpdate` of operator/operator.go are kept
-- in order.
pub mod Laws
use blockless_avs_tools.Base.{
  ℕ, String, List, [], ◌∷◌, ◌++◌, Option, none, some, Result, ok, err, u32, GoError, Bool,
  if◌then◌else◌,
}
use Prim.Native.String.{◌++◌ as append}

-- `http.ResponseWriter`: nothing of the header changes once the status is written.
pub record ResponseWriter : Type 0 where
  pub status : Option ℕ
  pub content_type : Option String
  pub body : String

abbrev pub new_writer : ResponseWriter
new_writer = record { status = none; content_type = none; body = "" }

abbrev pub set_content_type : String → ResponseWriter → ResponseWriter
set_content_type t w = elim w.status [ none ↦ record w { content_type = some t } | some _ ↦ w ]

-- For a final status, 200 to 599, which is all that the handlers here send: net/http lets a status
-- below 200 be followed by the final one, and panics on a code that is none.
abbrev pub write_header : ℕ → ResponseWriter → ResponseWriter
write_header code w = elim w.status [ none ↦ record w { status = some code } | some _ ↦ w ]

-- A write without a status writes 200 first.
abbrev pub write : String → ResponseWriter → ResponseWriter
write text w = let w' = write_header 200 w in record w' { body = append w'.body text }

-- `http.Error`.
abbrev pub http_error : String → ℕ → ResponseWriter → ResponseWriter
http_error text code w =
    write (append text "\n") (write_header code (set_content_type "text/plain; charset=utf-8" w))

abbrev pub write_json : String → ResponseWriter → ResponseWriter
write_json json w = write json (write_header 200 (set_content_type "application/json" w))

pub record Json : Type 0 where
  pub marshal_app_meta : String → Result String
  pub marshal_api : String → Result String
  pub decode_symbol : List ℕ → Result String
  pub encode_response : String → ℕ → Result String
  pub error_text : GoError → String

unfoldable pub get_health : ResponseWriter
get_health = write "OK" (write_header 200 new_writer)

module _ (json : Json) where
  -- The routes that marshal one value.
  abbrev pub write_marshalled : Result String → ResponseWriter
  write_marshalled (ok text) = write_json text new_writer
  write_marshalled (err e) = http_error (json.error_text e) 500 new_writer

  unfoldable pub get_api : String → ResponseWriter
  get_api app_name = write_marshalled (json.marshal_app_meta app_name)

  unfoldable pub get_api_meta : ResponseWriter
  get_api_meta = write_marshalled (json.marshal_api "/api/getMeta")

  -- `RequestOracleUpdate` of the operator. Its channel has no buffer: the send returns once the
  -- operator's loop receives, and blocks for ever, none here, if it never does.
  unfoldable pub request_oracle_update : Bool → String → List String → Option (List String)
  request_oracle_update loop_receives symbol requested =
      if loop_receives then some (requested ++ symbol ∷ []) else none

  -- The response, none while the handler is blocked, and the symbols that the operator has received
  -- so far. An encoder that fails has written nothing.
  unfoldable pub post_oracle : Bool → List ℕ → ℕ → List String → Option ResponseWriter × List String
  unfolding request_oracle_update
  post_oracle loop_receives body now requested = elim (json.decode_symbol body) [
    | err _ ↦ (some (http_error "Invalid request body" 400 new_writer), requested)
    | ok symbol ↦ elim (request_oracle_update loop_receives symbol requested) [
      | none ↦ (none, requested)
      | some requested' ↦
          let w = write_header 200 (set_content_type "application/json" new_writer) in
          let w' : ResponseWriter = elim (json.encode_response symbol (u32 now)) [
            | ok text ↦ write (append text "\n") w
            | err _ ↦ http_error "Error encoding response" 500 w
          ] in
          (some w', requested')
    ]
  ]
