-- ===== src/Cli/Server.antt =====
-- The HTTP server of cli/avs.go: the middleware that logs a response's status, the wait for the
-- server and the browser. The clock and the process that is started are left out.
pub mod Laws
mod Examples
use blockless_avs_tools.Base.{
  ℕ, suc, String, List, [], ◌∷◌, Option, none, some, Result, ok, err, nat_beq, nat_eq, ◌==◌,
  string_eq, if◌then◌else◌,
}
use blockless_avs_tools.Node.Api
use blockless_avs_tools.Node.Api.{ResponseWriter, new_writer, set_content_type}

-- `wrappedWriter`.
pub record WrappedWriter : Type 0 where
  pub response_writer : ResponseWriter
  pub status : ℕ

-- `WriteHeader` records the status and passes it on, `Write` and `Header` are the inner writer's.
pub data HandlerCall : Type 0 where
  content_type write : String → HandlerCall
  write_header : ℕ → HandlerCall

unfoldable pub on_call : HandlerCall → WrappedWriter → WrappedWriter
on_call (content_type t) w = record w { response_writer = set_content_type t w.response_writer }
on_call (write text) w = record w { response_writer = Api.write text w.response_writer }
on_call (write_header status) w = record {
  response_writer = Api.write_header status w.response_writer;
  status = status;
}

-- The calls that a handler makes on the writer it is given, in their order.
unfoldable pub serve_http : List HandlerCall → WrappedWriter → WrappedWriter
serve_http [] w = w
serve_http (call ∷ calls) w = serve_http calls (on_call call w)

pub record Request : Type 0 where
  pub method : String
  pub path : String

-- What the call of the logger is given.
pub record LogLine : Type 0 where
  pub status : ℕ
  pub method : String
  pub path : String

-- `Middlewares`.
unfoldable pub middlewares : (Request → List HandlerCall) → Request → ResponseWriter × LogLine
middlewares next r =
    let wrapped = serve_http (next r) (record { response_writer = new_writer; status = 200 }) in
    (wrapped.response_writer, record { status = wrapped.status; method = r.method; path = r.path })

-- `waitForServer` over the answers of its attempts: the number of seconds that it slept, or none
-- while it waits on.
unfoldable pub wait_for_server : List (Result ℕ) → ℕ → Option ℕ
wait_for_server [] slept = none
wait_for_server (err _ ∷ later) slept = wait_for_server later (suc slept)
wait_for_server (ok status ∷ later) slept =
    let rest = wait_for_server later (suc slept) in if nat_beq status 200 then some slept else rest

-- `openbrowser`: the command line, none on a platform that is not supported.
unfoldable pub open_browser : String → String → Option (List String)
open_browser goos url =
    if goos == "linux"
    then some ("xdg-open" ∷ url ∷ [])
    else if goos == "windows"
    then some ("rundll32" ∷ "url.dll,FileProtocolHandler" ∷ url ∷ [])
    else if goos == "darwin"
    then some ("open" ∷ url ∷ [])
    else none
