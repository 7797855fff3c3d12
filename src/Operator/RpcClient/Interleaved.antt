-- ===== src/Operator/RpcClient/Interleaved.antt =====
-- The sends of operator/rpc_client.go as goroutines, one for each response that is signed: a send is a
-- `Send`, `advance` is its next access of the shared client, its next call or its next sleep, and `Step`
-- lets any send move.
pub mod Counted
pub mod Alone
mod Examples
use blockless_avs_tools.Base.{
  ℕ, zero, suc, ◌+◌, ◌*◌, String, List, [], ◌∷◌, Bool, true, false, Option, none, some, Result, ok,
  err, ◌≡◌, get_elem?, set,
}
use blockless_avs_tools.Aggregator.State.{SignedOracleResponse}
use blockless_avs_tools.Operator.RpcClient.{
  Network, AggregatorRpcClient, second, new_aggregator_rpc_client, dial_aggregator_rpc_client,
}

-- How far a call of `SendSignedOracleResponseToAggregator` has come; the number is that of the rounds
-- that the loop has left. `ended` says whether the response was accepted; `crashed` is the nil
-- dereference of a call on no connection.
pub data Send (Sig : Type 0) : Type 0 where
  arrived dialing : SignedOracleResponse Sig → Send Sig
  calling sleeping : ℕ → SignedOracleResponse Sig → Send Sig
  ended : Bool → Send Sig
  crashed : Send Sig

module _ {W Client Sig : Type 0} (net : Network W Client Sig) where
  unfoldable pub advance :
      Send Sig → AggregatorRpcClient W Client → Send Sig × AggregatorRpcClient W Client
  unfolding dial_aggregator_rpc_client
  advance (arrived resp) c = elim c.rpc_client [
    | none ↦ (dialing resp, c)
    | some _ ↦ (calling 5 resp, c)
  ]
  advance (dialing resp) c =
      let (r, c') = dial_aggregator_rpc_client net c in
      elim r [ ok _ ↦ (calling 5 resp, c') | err _ ↦ (ended false, c') ]
  advance (calling zero resp) c = (ended false, c)
  advance (calling (suc n) resp) c = elim c.rpc_client [
    | none ↦ (crashed, c)
    | some client ↦
        let (r, w) = net.call client resp c.network in
        elim r [
          | ok _ ↦
              (ended true, record c { num_tasks_accepted = c.num_tasks_accepted + 1; network = w })
          | err _ ↦ (sleeping n resp, record c { network = w })
        ]
  ]
  advance (sleeping n resp) c = (calling n resp, record c { slept = c.slept + 2 * second })
  advance (ended accepted) c = (ended accepted, c)
  advance crashed c = (crashed, c)

  -- The shared client and the sends in flight.
  pub record Sending : Type 0 where
    pub client : AggregatorRpcClient W Client
    pub sends : List (Send Sig)

  -- A send starts; a send moves; the network changes by itself.
  pub data Step : Sending → Sending → Type 0 where
    arrive :
        (s : Sending) (resp : SignedOracleResponse Sig)
        → Step s (record s { sends = arrived resp ∷ s.sends })
    move :
        (s : Sending) (i : ℕ) (p : Send Sig)
        → get_elem? s.sends i ≡ some p
        → Step s (record {
          client = (advance p s.client).1;
          sends = set s.sends i (advance p s.client).0;
        })
    background :
        (s : Sending) (w : W) → Step s (record s { client = record s.client { network = w } })

  -- What can happen after `NewAggregatorRpcClient`.
  pub data Reach : Sending → Type 0 where
    start :
        (addr : String) (w : W)
        → Reach (record { client = new_aggregator_rpc_client addr w; sends = [] })
    next : {s t : Sending} → Reach s → Step s t → Reach t
