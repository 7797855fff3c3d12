-- ===== src/Operator/RpcClient.antt =====
-- operator/rpc_client.go. `rpc.DialHTTP` and `rpc.Client.Call` are parameters on the state `W` of
-- the network; a call's reply is not read.
pub mod Laws
pub mod Connection
pub mod Interleaved
use blockless_avs_tools.Base.{
  ℕ, zero, suc, ◌+◌, ◌*◌, String, List, [], ◌∷◌, Option, none, some, Result, ok, err,
}
use blockless_avs_tools.Base.Effects.{Effect}
use blockless_avs_tools.Aggregator.State.{SignedOracleResponse}

pub record Network (W Client Sig : Type 0) : Type 0 where
  pub dial_http : String → Effect W Client
  pub call : Client → SignedOracleResponse Sig → Effect W (Unit {0})

-- The client's fields that matter, the counter that it feeds, and the time that it has slept.
pub record AggregatorRpcClient (W Client : Type 0) : Type 0 where
  pub rpc_client : Option Client
  pub aggregator_ip_port_addr : String
  pub num_tasks_accepted : ℕ
  pub slept : ℕ  -- nanoseconds
  pub network : W

abbrev pub second : ℕ
second = 1_000_000_000

-- The client is dialed at the first send, so that the operator can start before the aggregator.
unfoldable pub new_aggregator_rpc_client :
    {W Client : Type 0} → String → W → AggregatorRpcClient W Client
new_aggregator_rpc_client addr w = record {
  rpc_client = none;
  aggregator_ip_port_addr = addr;
  num_tasks_accepted = 0;
  slept = 0;
  network = w;
}

module _ {W Client Sig : Type 0} (net : Network W Client Sig) where
  unfoldable pub dial_aggregator_rpc_client : Effect (AggregatorRpcClient W Client) Client
  dial_aggregator_rpc_client c =
      let (r, w) = net.dial_http c.aggregator_ip_port_addr c.network in
      elim r [
        | ok client ↦ (ok client, record c { rpc_client = some client; network = w })
        | err e ↦ (err e, record c { network = w })
      ]

  -- The `for` loop with `attempts` rounds left.
  unfoldable pub try_calls :
      ℕ
      → Client
      → SignedOracleResponse Sig
      → AggregatorRpcClient W Client
      → AggregatorRpcClient W Client
  try_calls zero client resp c = c
  try_calls (suc attempts) client resp c =
      let (r, w) = net.call client resp c.network in
      elim r [
        | ok _ ↦ record c { num_tasks_accepted = c.num_tasks_accepted + 1; network = w }
        | err _ ↦
            try_calls attempts client resp (record c { slept = c.slept + 2 * second; network = w })
      ]

  unfoldable pub send_signed_oracle_response_to_aggregator :
      SignedOracleResponse Sig → AggregatorRpcClient W Client → AggregatorRpcClient W Client
  unfolding dial_aggregator_rpc_client
  send_signed_oracle_response_to_aggregator resp c = elim c.rpc_client [
    | some client ↦ try_calls 5 client resp c
    | none ↦
        let (r, c') = dial_aggregator_rpc_client c in
        elim r [ ok client ↦ try_calls 5 client resp c' | err _ ↦ c' ]
  ]

  -- Sends one after the other.
  unfoldable pub send_all :
      List (SignedOracleResponse Sig) → AggregatorRpcClient W Client → AggregatorRpcClient W Client
  send_all [] c = c
  send_all (resp ∷ rest) c = send_all rest (send_signed_oracle_response_to_aggregator resp c)
