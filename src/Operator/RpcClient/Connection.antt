-- ===== src/Operator/RpcClient/Connection.antt =====
-- The connection of the operator's client over one send and over many.
use blockless_avs_tools.Base.{
  ℕ, zero, suc, ◌+◌, ◌*◌, ◌≤◌, List, [], ◌∷◌, none, some, err, GoError, ◌≡◌, refl, inl, inr, arith,
  ◌∙◌, ap, length, Option-cases, Result-cases,
}
use blockless_avs_tools.Aggregator.State.{SignedOracleResponse}
use blockless_avs_tools.Operator.RpcClient.{
  Network, AggregatorRpcClient, second, try_calls, send_signed_oracle_response_to_aggregator,
  send_all,
}
use blockless_avs_tools.Operator.RpcClient.Laws.{FailingCalls, try_calls_lem, try_calls-all_fail}

module _ {W Client Sig : Type 0} (net : Network W Client Sig) where
  try_calls-rpc_client :
      (n : ℕ) (client : Client) (resp : SignedOracleResponse Sig) (c : AggregatorRpcClient W Client)
      → (try_calls net n client resp c).rpc_client ≡ c.rpc_client
  try_calls-rpc_client n client resp c = elim (try_calls_lem net client resp n c) [
    | inl (k, _, _, _, e) ↦ ap (λ c'. c'.rpc_client) e
    | inr (_, e) ↦ ap (λ c'. c'.rpc_client) e
  ]

  send_connected :
      (client : Client) (resp : SignedOracleResponse Sig) (c : AggregatorRpcClient W Client)
      → c.rpc_client ≡ some client
      → send_signed_oracle_response_to_aggregator net resp c ≡ try_calls net 5 client resp c
  unfolding send_signed_oracle_response_to_aggregator
  send_connected client resp c h = ground arith

  -- A send whose dial fails makes no call: nothing is counted, nothing is waited for, and the
  -- client is still to be dialed.
  pub send-dial_error :
      (resp : SignedOracleResponse Sig) (c : AggregatorRpcClient W Client) {e : GoError} {w : W}
      → c.rpc_client ≡ none
      → net.dial_http c.aggregator_ip_port_addr c.network ≡ (err e, w)
      → send_signed_oracle_response_to_aggregator net resp c ≡ record c { network = w }
  unfolding send_signed_oracle_response_to_aggregator
  send-dial_error resp c h d = ground arith

  -- A send over a connection whose next five calls fail gives up after ten seconds of sleep, two
  -- of them after the last attempt, and counts nothing.
  pub send-five_failures :
      (client : Client) (resp : SignedOracleResponse Sig) (c : AggregatorRpcClient W Client)
      → c.rpc_client ≡ some client
      → FailingCalls net client resp 5 c.network
      → let c' = send_signed_oracle_response_to_aggregator net resp c in
        (c'.slept ≡ c.slept + 10 * second) × (c'.num_tasks_accepted ≡ c.num_tasks_accepted)
  send-five_failures client resp c h fails =
      let e = send_connected client resp c h ∙ try_calls-all_fail net client resp 5 c fails in
      (ap (λ c'. c'.slept) e, ap (λ c'. c'.num_tasks_accepted) e)

  -- Once a connection stands it is kept, whatever happens to it: no later send dials again.
  pub send_all-rpc_client :
      (client : Client) (resps : List (SignedOracleResponse Sig)) (c : AggregatorRpcClient W Client)
      → c.rpc_client ≡ some client
      → (send_all net resps c).rpc_client ≡ some client
  unfolding send_all
  send_all-rpc_client client [] c h = h
  send_all-rpc_client client (resp ∷ resps) c h =
      send_all-rpc_client client resps (send_signed_oracle_response_to_aggregator net resp c) (
        ap (λ c'. c'.rpc_client) (send_connected client resp c h)
        ∙ try_calls-rpc_client 5 client resp c
        ∙ h)

  dead-FailingCalls :
      (client : Client) (resp : SignedOracleResponse Sig)
      → ((w : W) → (e : GoError) × ((net.call client resp w).0 ≡ err e))
      → (n : ℕ) (w : W) → FailingCalls net client resp n w
  dead-FailingCalls client resp dead zero w = tt
  dead-FailingCalls client resp dead (suc n) w =
      (dead w, dead-FailingCalls client resp dead n (net.call client resp w).1)

  -- So a connection that is lost, over which every call fails, is lost for good: no later response
  -- is ever accepted, also where a new dial would succeed.
  pub send_all-lost_connection :
      (client : Client)
      → ((resp : SignedOracleResponse Sig) (w : W)
          → (e : GoError) × ((net.call client resp w).0 ≡ err e))
      → (resps : List (SignedOracleResponse Sig)) (c : AggregatorRpcClient W Client)
      → c.rpc_client ≡ some client
      → (send_all net resps c).num_tasks_accepted ≡ c.num_tasks_accepted
  unfolding send_all
  send_all-lost_connection client dead [] c h = refl
  send_all-lost_connection client dead (resp ∷ resps) c h =
      let fails = dead-FailingCalls client resp (dead resp) 5 c.network in
      let c' = send_signed_oracle_response_to_aggregator net resp c in
      send_all-lost_connection client dead resps c' (
        ap (λ d. d.rpc_client) (send_connected client resp c h)
        ∙ try_calls-rpc_client 5 client resp c
        ∙ h)
      ∙ (send-five_failures client resp c h fails).1

  try_calls-accepted_le :
      (n : ℕ) (client : Client) (resp : SignedOracleResponse Sig) (c : AggregatorRpcClient W Client)
      → (try_calls net n client resp c).num_tasks_accepted ≤ c.num_tasks_accepted + 1
  try_calls-accepted_le n client resp c = elim (try_calls_lem net client resp n c) [
    | inl (k, _, _, _, e) ↦ rw e (omega arith)
    | inr (_, e) ↦ rw e (omega arith)
  ]

  send-accepted_le :
      (resp : SignedOracleResponse Sig) (c : AggregatorRpcClient W Client)
      → (send_signed_oracle_response_to_aggregator net resp c).num_tasks_accepted
        ≤ c.num_tasks_accepted + 1
  unfolding send_signed_oracle_response_to_aggregator
  send-accepted_le resp c = elim (Option-cases c.rpc_client) [
    | inr (client, h) ↦ ground (arith, try_calls-accepted_le 5 client resp c)
    | inl h ↦ elim (Result-cases (net.dial_http c.aggregator_ip_port_addr c.network).0) [
      | inl (client, d) ↦
          let connected = record c {
            rpc_client = some client;
            network = (net.dial_http c.aggregator_ip_port_addr c.network).1;
          } in
          ground (arith, try_calls-accepted_le 5 client resp connected)
      | inr (e, d) ↦ ground arith
    ]
  ]

  -- Every send counts at most one acceptance.
  pub send_all-accepted_le :
      (resps : List (SignedOracleResponse Sig)) (c : AggregatorRpcClient W Client)
      → (send_all net resps c).num_tasks_accepted ≤ c.num_tasks_accepted + length resps
  unfolding send_all
  send_all-accepted_le [] c = omega arith
  send_all-accepted_le (resp ∷ resps) c = omega (
    arith,
    send-accepted_le resp c,
    send_all-accepted_le resps (send_signed_oracle_response_to_aggregator net resp c),
  )
