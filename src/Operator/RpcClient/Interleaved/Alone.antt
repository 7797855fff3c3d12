-- ===== src/Operator/RpcClient/Interleaved/Alone.antt =====
-- A send that nothing interrupts is one call of `SendSignedOracleResponseToAggregator`.
use blockless_avs_tools.Base.{
  ℕ, zero, suc, ◌+◌, ◌*◌, ◌≤◌, Bool, true, false, some, ◌≡◌, refl, arith, ap, ◌∙◌, inl, inr,
  Option-cases, Result-cases,
}
use blockless_avs_tools.Aggregator.State.{SignedOracleResponse}
use blockless_avs_tools.Operator.RpcClient.{
  Network, AggregatorRpcClient, second, dial_aggregator_rpc_client, try_calls,
  send_signed_oracle_response_to_aggregator,
}
use blockless_avs_tools.Operator.RpcClient.Interleaved.{
  Send, arrived, dialing, calling, sleeping, ended, advance,
}

module _ {W Client Sig : Type 0} (net : Network W Client Sig) where
  -- `n` moves of one send with nothing in between.
  unfoldable pub advance_many :
      ℕ → Send Sig × AggregatorRpcClient W Client → Send Sig × AggregatorRpcClient W Client
  advance_many zero s = s
  advance_many (suc n) (p, c) = advance_many n (advance net p c)

  advance_many-first :
      (n : ℕ) (p : Send Sig) (c : AggregatorRpcClient W Client) {q : Send Sig}
      {c' : AggregatorRpcClient W Client}
      → advance net p c ≡ (q, c')
      → advance_many (suc n) (p, c) ≡ advance_many n (q, c')
  unfolding advance_many
  advance_many-first n p c h = ap (advance_many n) h

  try_calls-advance_many :
      (k : ℕ) (client : Client) (resp : SignedOracleResponse Sig) (c : AggregatorRpcClient W Client)
      → c.rpc_client ≡ some client
      → (n : ℕ) × (accepted : Bool) × (n ≤ 2 * k + 1)
        × (advance_many n (calling k resp, c) ≡ (ended accepted, try_calls net k client resp c))
  unfolding advance_many advance try_calls
  try_calls-advance_many zero client resp c h = (1, false, omega arith, refl)
  try_calls-advance_many (suc k) client resp c h =
      elim (Result-cases (net.call client resp c.network).0) [
        | inl (_, good) ↦ (1, true, omega arith, ground arith)
        | inr (_, bad) ↦
            let w = (net.call client resp c.network).1 in
            let c₁ : AggregatorRpcClient W Client = record c { network = w } in
            let c₂ : AggregatorRpcClient W Client = record c {
              slept = c.slept + 2 * second;
              network = w;
            } in
            let (n, accepted, le, run) = try_calls-advance_many k client resp c₂ h in
            let failed : advance net (calling (suc k) resp) c ≡ (sleeping k resp, c₁) =
              ground arith in
            let retried : try_calls net k client resp c₂ ≡ try_calls net (suc k) client resp c =
              ground arith in
            (
              suc (suc n),
              accepted,
              omega (arith, le),
              advance_many-first (suc n) (calling (suc k) resp) c failed
                  ∙ run
                  ∙ ap (λ d. (ended accepted, d)) retried,
            )
      ]

  -- A send that nothing interrupts ends after at most 13 moves, with the state that one call of
  -- SendSignedOracleResponseToAggregator() leaves.
  pub advance_many-send :
      (resp : SignedOracleResponse Sig) (c : AggregatorRpcClient W Client)
      → (n : ℕ) × (accepted : Bool) × (n ≤ 13)
        × (advance_many n (arrived resp, c)
            ≡ (ended accepted, send_signed_oracle_response_to_aggregator net resp c))
  unfolding advance send_signed_oracle_response_to_aggregator dial_aggregator_rpc_client
      advance_many
  advance_many-send resp c = elim (Option-cases c.rpc_client) [
    | inr (client, found) ↦
        let (n, accepted, le, run) = try_calls-advance_many 5 client resp c found in
        let moved : advance net (arrived resp) c ≡ (calling 5 resp, c) = ground arith in
        let sent : try_calls net 5 client resp c
            ≡ send_signed_oracle_response_to_aggregator net resp c =
          ground arith in
        (
          suc n,
          accepted,
          omega (arith, le),
          advance_many-first n (arrived resp) c moved ∙ run ∙ ap (λ d. (ended accepted, d)) sent,
        )
    | inl missing ↦
        let w = (net.dial_http c.aggregator_ip_port_addr c.network).1 in
        let dials : advance net (arrived resp) c ≡ (dialing resp, c) = ground arith in
        elim (Result-cases (net.dial_http c.aggregator_ip_port_addr c.network).0) [
          | inr (_, bad) ↦
              (2, false, omega arith, advance_many-first 1 (arrived resp) c dials ∙ ground arith)
          | inl (client, good) ↦
              let c₁ : AggregatorRpcClient W Client = record c {
                rpc_client = some client;
                network = w;
              } in
              let (n, accepted, le, run) = try_calls-advance_many 5 client resp c₁ refl in
              let made : advance net (dialing resp) c ≡ (calling 5 resp, c₁) = ground arith in
              let sent : try_calls net 5 client resp c₁
                  ≡ send_signed_oracle_response_to_aggregator net resp c =
                ground arith in
              (
                suc (suc n),
                accepted,
                omega (arith, le),
                advance_many-first (suc n) (arrived resp) c dials
                    ∙ advance_many-first n (dialing resp) c made
                    ∙ run
                    ∙ ap (λ d. (ended accepted, d)) sent,
              )
        ]
  ]
