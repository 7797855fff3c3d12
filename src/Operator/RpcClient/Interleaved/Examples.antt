-- ===== src/Operator/RpcClient/Interleaved/Examples.antt =====
-- Two sends over a network whose calls fail at first.
use blockless_avs_tools.Base.{
  ℕ, ◌+◌, ◌==◌, ◌≡◌, ◌≢◌, ◌≤◌, refl, if◌then◌else◌, nat_eq, Bool, true, [], ◌∷◌, some, ok, err,
  message, get_elem?,
}
use blockless_avs_tools.Bindings.{zero_price}
use blockless_avs_tools.Aggregator.State.{SignedOracleResponse}
use blockless_avs_tools.Operator.RpcClient.{
  Network, AggregatorRpcClient, new_aggregator_rpc_client, dial_aggregator_rpc_client,
  send_signed_oracle_response_to_aggregator,
}
use blockless_avs_tools.Operator.RpcClient.Interleaved.{
  Send, arrived, dialing, calling, ended, crashed, advance, Sending, arrive, move, Reach, start,
  next,
}
use blockless_avs_tools.Operator.RpcClient.Interleaved.Counted.{accepted, Reach-counts_accepted}
use blockless_avs_tools.Operator.RpcClient.Interleaved.Alone.{advance_many, advance_many-send}

-- The network counts its calls; the first one fails.
abbrev net : Network ℕ ℕ ℕ
net = record {
  dial_http = λ addr w. (ok 7, w);
  call = λ client resp w. if w == 0 then (err (message "not ready"), w + 1) else (ok tt, w + 1);
}

abbrev resp : SignedOracleResponse ℕ
resp = record { price_response = zero_price; bls_signature = 9; operator_id = 1 ∷ [] }

abbrev fresh : AggregatorRpcClient ℕ ℕ
fresh = new_aggregator_rpc_client "localhost:8090" 1

abbrev dialed : AggregatorRpcClient ℕ ℕ
dialed = record {
  rpc_client = some 7;
  aggregator_ip_port_addr = "localhost:8090";
  num_tasks_accepted = 0;
  slept = 0;
  network = 1;
}

-- Both sends see no connection, both dial, and one of them is accepted.
abbrev last : Sending net
last = record {
  client = record dialed { num_tasks_accepted = 1; network = 2 };
  sends = ended true ∷ calling 5 resp ∷ [];
}

abbrev two : Send ℕ → Send ℕ → AggregatorRpcClient ℕ ℕ → Sending net
two p q c = record { client = c; sends = p ∷ q ∷ [] }

reached : Reach net last
unfolding advance dial_aggregator_rpc_client new_aggregator_rpc_client
reached =
    let r0 = next (start "localhost:8090" 1) (arrive _ resp) in
    let r1 = next r0 (arrive _ resp) in
    let r2 = next r1 (move (two (arrived resp) (arrived resp) fresh) 0 (arrived resp) refl) in
    let r3 = next r2 (move (two (dialing resp) (arrived resp) fresh) 1 (arrived resp) refl) in
    let r4 = next r3 (move (two (dialing resp) (dialing resp) fresh) 0 (dialing resp) refl) in
    let r5 = next r4 (move (two (calling 5 resp) (dialing resp) dialed) 1 (dialing resp) refl) in
    next r5 (move (two (calling 5 resp) (calling 5 resp) dialed) 0 (calling 5 resp) refl)

Reach-counts_accepted_example :
    (1 ≡ accepted last.sends) × ((i : ℕ) → get_elem? last.sends i ≢ some crashed)
Reach-counts_accepted_example = Reach-counts_accepted net reached

advance_many-send_example :
    (n : ℕ) × (accepted : Bool) × (n ≤ 13)
    × (advance_many net n (arrived resp, fresh)
        ≡ (ended accepted, send_signed_oracle_response_to_aggregator net resp fresh))
advance_many-send_example = advance_many-send net resp fresh
