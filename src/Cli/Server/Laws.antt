-- ===== src/Cli/Server/Laws.antt =====
-- The status that is logged and the status that is sent, and the end of the wait for the server.
use blockless_avs_tools.Base.{
  ℕ, ◌+◌, ◌≡◌, refl, List, [], ◌∷◌, ◌++◌, Option, none, some, Result, ok, err, All, nat_beq, false,
  arith, length,
}
use blockless_avs_tools.Cli.Server.{
  WrappedWriter, HandlerCall, content_type, write, write_header, on_call, serve_http, Request,
  middlewares, wait_for_server,
}

-- The status of the last `WriteHeader`, or else `before`.
abbrev pub last_status : ℕ → List HandlerCall → ℕ
last_status before [] = before
last_status before (content_type _ ∷ calls) = last_status before calls
last_status before (write _ ∷ calls) = last_status before calls
last_status before (write_header status ∷ calls) = last_status status calls

-- The status of the first call that sends one.
abbrev pub first_status : List HandlerCall → Option ℕ
first_status [] = none
first_status (content_type _ ∷ calls) = first_status calls
first_status (write _ ∷ calls) = some 200
first_status (write_header status ∷ calls) = some status

serve_http-last :
    (calls : List HandlerCall) (w : WrappedWriter)
    → (serve_http calls w).status ≡ last_status w.status calls
unfolding serve_http on_call
serve_http-last [] w = refl
serve_http-last (content_type t ∷ calls) w = serve_http-last calls _
serve_http-last (write text ∷ calls) w = serve_http-last calls _
serve_http-last (write_header status ∷ calls) w = serve_http-last calls _

serve_http-sent :
    (calls : List HandlerCall) (w : WrappedWriter) (status : ℕ)
    → w.response_writer.status ≡ some status
    → (serve_http calls w).response_writer.status ≡ some status
unfolding serve_http on_call
serve_http-sent [] w status sent = sent
serve_http-sent (content_type t ∷ calls) w status sent =
    serve_http-sent calls _ status (ground arith)
serve_http-sent (write text ∷ calls) w status sent = serve_http-sent calls _ status (ground arith)
serve_http-sent (write_header code ∷ calls) w status sent =
    serve_http-sent calls _ status (ground arith)

serve_http-first :
    (calls : List HandlerCall) (w : WrappedWriter)
    → w.response_writer.status ≡ none
    → (serve_http calls w).response_writer.status ≡ first_status calls
unfolding serve_http on_call
serve_http-first [] w fresh = fresh
serve_http-first (content_type t ∷ calls) w fresh = serve_http-first calls _ (ground arith)
serve_http-first (write text ∷ calls) w fresh = serve_http-sent calls _ 200 (ground arith)
serve_http-first (write_header code ∷ calls) w fresh = serve_http-sent calls _ code (ground arith)

-- The middleware logs the status of the handler's last WriteHeader, or 200, while the response has
-- the status of the first call that sends one: of two different statuses the log names the one that
-- was not sent.
pub middlewares-status :
    (next : Request → List HandlerCall) (r : Request)
    → let (response, line) = middlewares next r in
      (line.status ≡ last_status 200 (next r)) × (response.status ≡ first_status (next r))
unfolding middlewares
middlewares-status next r = (serve_http-last (next r) _, serve_http-first (next r) _ refl)

abbrev IsDown : Result ℕ → Type 0
IsDown (err _) = Unit
IsDown (ok status) = nat_beq status 200 ≡ false

-- The wait ends at the first answer with status 200, after one second for each attempt before it.
pub wait_for_server-first :
    (failed later : List (Result ℕ)) (slept : ℕ)
    → All IsDown failed
    → wait_for_server (failed ++ (ok 200 ∷ later)) slept ≡ some (slept + length failed)
unfolding wait_for_server
wait_for_server-first [] later slept down = ground arith
wait_for_server-first (err _ ∷ failed) later slept down =
    ground (arith, wait_for_server-first failed later (slept + 1) down.1)
wait_for_server-first (ok _ ∷ failed) later slept (down, rest) =
    ground (arith, wait_for_server-first failed later (slept + 1) rest)
