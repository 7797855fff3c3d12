-- ===== src/Operator/Examples.antt =====
-- A concrete web, chain and network, and the theorems on the operator at them.
use blockless_avs_tools.Base.{
  ℕ, zero, suc, ◌+◌, ◌*◌, ◌≤◌, ◌<◌, ◌^◌, List, [], ◌∷◌, ◌++◌, none, some, ok, err, GoError, message,
  ◌≡◌, ◌⊎◌, refl, arith, pos, negsuc, replicate, length, insert, string_eq, u64, returned, exited,
}
use blockless_avs_tools.Bindings.{Price}
use blockless_avs_tools.Core.Digest.{abi_encode_price_response, get_price_digest}
use blockless_avs_tools.Core.Examples.{abi}
use blockless_avs_tools.Aggregator.State.{SignedOracleResponse}
use blockless_avs_tools.Operator.Coingecko.{
  Float64, Http, get_price_by_id, format_price_to_six_decimals,
}
use blockless_avs_tools.Operator.Oracle.{process_oracle_update_request, sign_oracle_response}
use blockless_avs_tools.Operator.Oracle.Laws.{process_oracle_update_request-negative}
use blockless_avs_tools.Operator.Start.{Event, ctx_done, oracle_update, Running, start_loop}
use blockless_avs_tools.Operator.Start.Laws.{handled, ending, oks, answers, start_loop_lem}
use blockless_avs_tools.Operator.RpcClient.{Network, AggregatorRpcClient, try_calls, send_all}
use blockless_avs_tools.Operator.RpcClient.Laws.{after_calls, FailingCalls, waited, try_calls_lem}
use blockless_avs_tools.Operator.RpcClient.Connection.{send_all-lost_connection}
use blockless_avs_tools.Operator.Registration.{
  RegistrationLib, register_operator_with_eigenlayer, deposit_into_strategy,
  register_operator_with_avs, register_operator_on_startup,
}
use blockless_avs_tools.Operator.Registration.Laws.{register_operator_on_startup_lem}

-- Whole dollars.
abbrev pub float : Float64 ℕ
float = record { of_nat = λ n. n; mul = λ a b. a * b; round = λ a. a; to_uint = u64 }

-- A web where bitcoin costs so many dollars.
abbrev pub web : ℕ → Http ℕ ℕ
web dollars = record {
  get = λ url. ok 0;
  read_all = λ resp. ok [];
  unmarshal = λ body. ok (insert "bitcoin" (insert "usd" dollars []) []);
}

abbrev pub priced : ℕ → Price
priced amount = record { symbol = "bitcoin"; price = some (pos amount); timestamp = 5 }

abbrev pub signed : SignedOracleResponse ℕ
signed = record { price_response = priced 42_000_000; bls_signature = 9; operator_id = 1 ∷ [] }

abbrev pub sign_message : List ℕ → ℕ
sign_message digest = 9

found : (dollars : ℕ) → get_price_by_id (web dollars) "bitcoin" ≡ ok dollars
unfolding get_price_by_id
found dollars = refl

fits : format_price_to_six_decimals float 42 < 2 ^ 63
unfolding format_price_to_six_decimals
fits = omega arith

-- 10^13 dollars.
large : 2 ^ 63 ≤ format_price_to_six_decimals float 10_000_000_000_000
unfolding format_price_to_six_decimals
large = omega arith

below : format_price_to_six_decimals float 10_000_000_000_000 < 2 ^ 64
unfolding format_price_to_six_decimals
below = omega arith

process_oracle_update_request-negative_example :
    (p : Price) × (n : ℕ) × (process_oracle_update_request float
        (web 10_000_000_000_000)
        (ok 5)
        "bitcoin"
      ≡ ok p)
    × (p.price ≡ some (negsuc n))
process_oracle_update_request-negative_example =
    process_oracle_update_request-negative float (web 10_000_000_000_000) "bitcoin" 5
      10_000_000_000_000 (found 10_000_000_000_000) large below

signs : sign_oracle_response abi sign_message (1 ∷ []) (priced 42_000_000) ≡ ok signed
unfolding sign_oracle_response get_price_digest abi_encode_price_response
signs = refl

abbrev events : List (Event ℕ ℕ)
events =
    oracle_update "bitcoin" (ok 5) (web 42)
    ∷ oracle_update "ether" (ok 6) (web 42)
    ∷ ctx_done
    ∷ oracle_update "bitcoin" (ok 7) (web 43)
    ∷ []

abbrev idle : Running ℕ
idle = record { num_tasks_received = 0; sent = [] }

start_loop_lem_example : start_loop abi float sign_message (1 ∷ []) events idle ≡ (
  ending events,
  record {
    num_tasks_received = 0 + length (handled events);
    sent = [] ++ oks (answers abi float sign_message (1 ∷ []) (handled events));
  },
)
start_loop_lem_example = start_loop_lem abi float sign_message (1 ∷ []) events idle

-- A network that can be dialed, whose client 0 is dead.
abbrev net : Network ℕ ℕ ℕ
net = record {
  dial_http = λ addr w. (ok 1, w);
  call = λ client resp w. elim client [
    | zero ↦ (err (message "connection is shut down"), w + 1)
    | suc _ ↦ (ok tt, w + 1)
  ];
}

abbrev connected : AggregatorRpcClient ℕ ℕ
connected = record {
  rpc_client = some 0;
  aggregator_ip_port_addr = "aggregator:8090";
  num_tasks_accepted = 3;
  slept = 0;
  network = 0;
}

try_calls_lem_example :
    ((k : ℕ) × (k < 5)
      × FailingCalls net 0 signed k 0
      × ((net.call 0 signed (after_calls net 0 signed k 0)).0 ≡ ok tt)
      × (try_calls net 5 0 signed connected ≡ record (waited net 0 signed k connected) {
        num_tasks_accepted = 3 + 1;
        network = after_calls net 0 signed (suc k) 0;
      }))
    ⊎ (FailingCalls net 0 signed 5 0
        × (try_calls net 5 0 signed connected ≡ waited net 0 signed 5 connected))
try_calls_lem_example = try_calls_lem net 0 signed 5 connected

dead : (resp : SignedOracleResponse ℕ) (w : ℕ) → (e : GoError) × ((net.call 0 resp w).0 ≡ err e)
dead resp w = (message "connection is shut down", refl)

five_dead : FailingCalls net 0 signed 5 0
five_dead = (dead signed 0, (dead signed 1, (dead signed 2, (dead signed 3, (dead signed 4, tt)))))

send_all-lost_connection_example :
    (send_all net (signed ∷ signed ∷ []) connected).num_tasks_accepted
    ≡ connected.num_tasks_accepted
send_all-lost_connection_example =
    send_all-lost_connection net 0 dead (signed ∷ signed ∷ []) connected refl

-- A chain that counts the calls; it has no transaction options.
abbrev registration : RegistrationLib ℕ ℕ ℕ ℕ ℕ ℕ
registration = record {
  register_as_operator = λ op w. (err (message "already registered"), w + 1);
  get_strategy_and_underlying_token = λ s w. (ok 20, w + 1);
  get_erc20_mock = λ token w. (ok 21, w + 1);
  get_no_send_tx_opts = λ w. ((none, some (message "no wallet")), w + 1);
  mint = λ erc20 opts to amount w. (ok 22, w + 1);
  send = λ tx w. (ok 23, w + 1);
  deposit_erc20_into_strategy = λ s amount w. (ok 24, w + 1);
  block_number = λ w. (ok 100, w + 1);
  block_by_number = λ n w. (ok 1000, w + 1);
  register_operator_in_quorum_with_avs_registry_coordinator =
      λ key salt expiry quorums socket w. (ok 25, w + 1);
  get_operator_id = λ addr w. (ok (replicate 32 1), w + 1);
}

register_operator_on_startup_lem_example :
    let w₁ = (register_operator_with_eigenlayer registration 7 0).1 in
    let (deposited, w₂) = deposit_into_strategy registration 7 8 1000 w₁ in
    let (registered, w₃) = register_operator_with_avs registration 7 5 w₂ in
    ((deposited ≡ ok tt)
      × (registered ≡ ok tt)
      × (register_operator_on_startup registration 7 5 8 0 ≡ (returned (ok tt), w₃)))
    ⊎ ((deposited ≡ ok tt)
        × (register_operator_on_startup registration 7 5 8 0
            ≡ (exited "Error registering operator with avs", w₃)))
    ⊎ (register_operator_on_startup registration 7 5 8 0
        ≡ (exited "Error depositing into strategy", w₂))
register_operator_on_startup_lem_example = register_operator_on_startup_lem registration 7 5 8 0
