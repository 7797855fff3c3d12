-- ===== src/Operator/RpcClient/Interleaved/Counted.antt =====
-- What the counter counts, and that no send calls on no connection.
use blockless_avs_tools.Base.{
  ℕ, zero, suc, ◌+◌, List, [], ◌∷◌, true, false, some, ◌≡◌, ◌≢◌, refl, arith, All, All-set, All-get,
  get_elem?, sum_by, sum_by-set, inl, inr, Option-cases, Result-cases,
}
use blockless_avs_tools.Operator.RpcClient.{
  Network, AggregatorRpcClient, new_aggregator_rpc_client, dial_aggregator_rpc_client,
}
use blockless_avs_tools.Operator.RpcClient.Interleaved.{
  Send, arrived, dialing, calling, sleeping, ended, crashed, advance, Sending, Step, arrive, move,
  background, Reach, start, next,
}

abbrev pub accepted_of : {Sig : Type 0} → Send Sig → ℕ
accepted_of (ended true) = 1
accepted_of _ = 0

-- The sends that ended with an accepted response.
abbrev pub accepted : {Sig : Type 0} → List (Send Sig) → ℕ
accepted = sum_by accepted_of

module _ {W Client : Type 0} where
  abbrev HasConnection : AggregatorRpcClient W Client → Type 0
  HasConnection c = (client : Client) × (c.rpc_client ≡ some client)

module _ {W Client Sig : Type 0} where
  -- A send that is in its loop has a connection to call on.
  abbrev IsConnected : AggregatorRpcClient W Client → Send Sig → Type 0
  IsConnected c (calling _ _) = HasConnection c
  IsConnected c (sleeping _ _) = HasConnection c
  IsConnected c crashed = ⊥
  IsConnected c _ = Unit {0}

  IsConnected-mono :
      (c c' : AggregatorRpcClient W Client) (p : Send Sig)
      → (HasConnection c → HasConnection c')
      → IsConnected c p
      → IsConnected c' p
  IsConnected-mono c c' (arrived resp) keep h = tt
  IsConnected-mono c c' (dialing resp) keep h = tt
  IsConnected-mono c c' (calling n resp) keep h = keep h
  IsConnected-mono c c' (sleeping n resp) keep h = keep h
  IsConnected-mono c c' (ended b) keep h = tt
  IsConnected-mono c c' crashed keep h = h

  sends_mono :
      (c c' : AggregatorRpcClient W Client) (sends : List (Send Sig))
      → (HasConnection c → HasConnection c')
      → All (IsConnected c) sends
      → All (IsConnected c') sends
  sends_mono c c' [] keep h = tt
  sends_mono c c' (p ∷ sends) keep h =
      (IsConnected-mono c c' p keep h.0, sends_mono c c' sends keep h.1)

  module _ (net : Network W Client Sig) where
    -- A move keeps a connection that there is, leaves its send with one if that is in its loop, and
    -- counts it if it ends accepted.
    advance-keeps :
        (p : Send Sig) (c : AggregatorRpcClient W Client)
        → IsConnected c p
        → let (p', c') = advance net p c in
          (HasConnection c → HasConnection c')
          × IsConnected c' p'
          × (c'.num_tasks_accepted + accepted_of p ≡ c.num_tasks_accepted + accepted_of p')
    unfolding advance dial_aggregator_rpc_client
    advance-keeps (arrived resp) c h = elim (Option-cases c.rpc_client) [
      | inl missing ↦ rw missing (λ x. x, tt, refl)
      | inr (client, found) ↦ rw found (λ x. x, (client, refl), refl)
    ]
    advance-keeps (dialing resp) c h =
        elim (Result-cases (net.dial_http c.aggregator_ip_port_addr c.network).0) [
          | inl (client, good) ↦
              let w = (net.dial_http c.aggregator_ip_port_addr c.network).1 in
              let made : advance net (dialing resp) c
                  ≡ (calling 5 resp, record c { rpc_client = some client; network = w }) =
                ground arith in
              rw made (λ _. (client, refl), (client, refl), refl)
          | inr (e, bad) ↦
              let w = (net.dial_http c.aggregator_ip_port_addr c.network).1 in
              let failed : advance net (dialing resp) c ≡ (ended false, record c { network = w }) =
                ground arith in
              rw failed (λ x. x, tt, refl)
        ]
    advance-keeps (calling zero resp) c h = (λ x. x, tt, refl)
    advance-keeps (calling (suc n) resp) c (client, found) =
        rw found (elim (Result-cases (net.call client resp c.network).0) [
          | inl (_, good) ↦ rw (good, advance) (λ x. x, tt, omega arith)
          | inr (_, bad) ↦ rw (bad, advance) (λ x. x, (client, refl), refl)
        ])
    advance-keeps (sleeping n resp) c h = (λ x. x, h, refl)
    advance-keeps (ended b) c h = (λ x. x, tt, refl)
    advance-keeps crashed c h = absurd h

    IsSafe : Sending net → Type 0
    IsSafe s = (s.client.num_tasks_accepted ≡ accepted s.sends) × All (IsConnected s.client) s.sends

    Step-IsSafe : {s t : Sending net} → Step net s t → IsSafe s → IsSafe t
    unfolding IsSafe
    Step-IsSafe (arrive s resp) (counted, connected) = (omega (arith, counted), (tt, connected))
    Step-IsSafe (background s w) (counted, connected) =
        (counted, sends_mono s.client (record s.client { network = w }) s.sends (λ x. x) connected)
    Step-IsSafe (move s i p e) (counted, connected) =
        let (p', c') = advance net p s.client in
        let (keep, connected', same) =
          advance-keeps p s.client (All-get (IsConnected s.client) s.sends i connected e) in
        let sums = sum_by-set accepted_of s.sends i p' e in
        (
          omega (arith, counted, same, sums),
          All-set (IsConnected c') s.sends i p' (sends_mono s.client c' s.sends keep connected)
              connected',
        )

    Reach-IsSafe : {s : Sending net} → Reach net s → IsSafe s
    unfolding IsSafe new_aggregator_rpc_client
    Reach-IsSafe (start addr w) = (refl, tt)
    Reach-IsSafe (next r step) = Step-IsSafe step (Reach-IsSafe r)

    -- Whatever the interleaving of the sends, the counter of accepted tasks is the number of sends
    -- that ended with an accepted response, and no send calls on a nil connection.
    pub Reach-counts_accepted :
        {s : Sending net}
        → Reach net s
        → (s.client.num_tasks_accepted ≡ accepted s.sends)
          × ((i : ℕ) → get_elem? s.sends i ≢ some crashed)
    unfolding IsSafe
    Reach-counts_accepted {s} r =
        let (counted, connected) = Reach-IsSafe r in
        (counted, λ i e. All-get (IsConnected s.client) s.sends i connected e)
