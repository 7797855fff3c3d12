-- ===== src/Cli/Examples.antt =====
-- A node and a server that both fail before the wait notices.
use blockless_avs_tools.Base.{List, [], ◌∷◌, true, some, message, ◌≡◌, refl}
use blockless_avs_tools.Cli.{Event, wake, node_ended, server_ended, started, crashed, run_avs}
use blockless_avs_tools.Cli.Laws.{NodeFails, ServerFails, run_avs-crash_cause}

abbrev both_fail : List Event
both_fail =
    node_ended (some (message "no peers")) ∷ server_ended (message "address in use") ∷ wake ∷ []

crashes : run_avs both_fail (started true) ≡ crashed
unfolding run_avs
crashes = refl

run_avs-crash_cause_example : (true ≡ true) × NodeFails both_fail × ServerFails both_fail
run_avs-crash_cause_example = run_avs-crash_cause true both_fail crashes
