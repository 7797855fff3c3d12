-- ===== src/Cli/Server/Examples.antt =====
-- A handler that writes two statuses, as the oracle's route does when its response has no encoding.
use blockless_avs_tools.Base.{[], ◌∷◌, List, ◌≡◌}
use blockless_avs_tools.Cli.Server.{HandlerCall, write_header, write, Request, middlewares}
use blockless_avs_tools.Cli.Server.Laws.{first_status, last_status, middlewares-status}

abbrev failing : Request → List HandlerCall
failing r = write_header 200 ∷ write_header 500 ∷ write "no encoding" ∷ []

abbrev post : Request
post = record { method = "POST"; path = "/v1/oracle" }

middlewares-status_example :
    let (response, line) = middlewares failing post in
    (line.status ≡ last_status 200 (failing post)) × (response.status ≡ first_status (failing post))
middlewares-status_example = middlewares-status failing post
