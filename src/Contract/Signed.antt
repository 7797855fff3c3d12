-- ===== src/Contract/Signed.antt =====
-- Where a price that can be read comes from, after any transactions.
use blockless_avs_tools.Base.{
  ◌≡◌, refl, ap, sym, ◌∙◌, ◌⊎◌, String, List, [], ◌∷◌, ◌++◌, arith, inl, inr, ◌==◌, string_eq,
  Bool-cases, subst,
}
use blockless_avs_tools.Bindings.{OracleRequest, NonSignerStakesAndSignature}
use blockless_avs_tools.Contract.{
  OnchainPrice, Storage, Env, Checker, price, update_oracle_price, set_aggregator, freeze_operator,
}
use blockless_avs_tools.Contract.Acceptance.{IsAuthorized, IsFresh, update_oracle_price_inv}
use blockless_avs_tools.Contract.Update.{price-update_oracle_price}
use blockless_avs_tools.Contract.Replay.{
  Transaction, update, new_aggregator, freeze, Tx-cases, execute, run,
}

module _ (checker : Checker) where
  -- One of the transactions is an update with this price for the symbol, and where it was run it came
  -- from the aggregator of that time, was signed as its request asks, and was fresh.
  pub record WasAccepted (symbol : String) (p : OnchainPrice) (txs : List Transaction) (s : Storage)
      : Type 0 where
    pub before : List Transaction
    pub after : List Transaction
    pub env : Env
    pub req : OracleRequest
    pub stakes : NonSignerStakesAndSignature
    pub among : txs ≡ before ++ (update env req p stakes ∷ after)
    pub authorized : IsAuthorized checker env req p stakes (run checker before s).0
    pub fresh : IsFresh env p (run checker before s).0
    pub for_symbol : p.symbol ≡ symbol

  execute-WasAccepted :
      (symbol : String) (tx : Transaction) (s : Storage)
      → (price symbol (execute checker tx s).0 ≡ price symbol s)
        ⊎ ((txs : List Transaction)
            → WasAccepted symbol (price symbol (execute checker tx s).0) (tx ∷ txs) s)
  unfolding execute set_aggregator freeze_operator price run
  execute-WasAccepted symbol (update env req p stakes) s =
      elim (Tx-cases (update_oracle_price checker env req p stakes s)) [
        | inr (_, reverts) ↦ inl (rw reverts refl)
        | inl ((s', event), h) ↦
            let (latest, _, _) = price-update_oracle_price checker env req p stakes s symbol h in
            let (authorized, fresh, _) = update_oracle_price_inv checker env req p stakes s h in
            elim (Bool-cases (p.symbol == symbol)) [
              | inr other ↦ inl (rw h (latest ∙ rw other refl))
              | inl same ↦ inr (λ txs.
                  let now : price symbol (execute checker (update env req p stakes) s).0 ≡ p =
                    rw h (latest ∙ rw same refl) in
                  subst (λ q. WasAccepted symbol q (update env req p stakes ∷ txs) s) (sym now)
                    (record {
                      before = [];
                      after = txs;
                      env = env;
                      req = req;
                      stakes = stakes;
                      among = refl;
                      authorized = authorized;
                      fresh = fresh;
                      for_symbol = (string_eq.beq_iff p.symbol symbol).0 same;
                    }))
            ]
      ]
  execute-WasAccepted symbol (new_aggregator env a) s = inl (ground arith)
  execute-WasAccepted symbol (freeze env a) s = inl (ground arith)

  later-WasAccepted :
      (symbol : String) (p : OnchainPrice) (tx : Transaction) (txs : List Transaction) (s : Storage)
      → WasAccepted symbol p txs (execute checker tx s).0
      → WasAccepted symbol p (tx ∷ txs) s
  unfolding run
  later-WasAccepted symbol p tx txs s w = record {
    before = tx ∷ w.before;
    after = w.after;
    env = w.env;
    req = w.req;
    stakes = w.stakes;
    among = ap (λ later. tx ∷ later) w.among;
    authorized = w.authorized;
    fresh = w.fresh;
    for_symbol = w.for_symbol;
  }

  -- After any transactions, those that revert among them, the price that is read for a symbol is the
  -- one read before them, or one of them was an update with this price, for this symbol, which in the
  -- storage that it was run on came from the aggregator, was signed as its request asks and was fresh.
  pub run-WasAccepted :
      (symbol : String) (txs : List Transaction) (s : Storage)
      → (price symbol (run checker txs s).0 ≡ price symbol s)
        ⊎ WasAccepted symbol (price symbol (run checker txs s).0) txs s
  unfolding run
  run-WasAccepted symbol [] s = inl refl
  run-WasAccepted symbol (tx ∷ txs) s =
      let s₁ = (execute checker tx s).0 in
      elim (run-WasAccepted symbol txs s₁) [
        | inr later ↦ inr (later-WasAccepted symbol _ tx txs s later)
        | inl kept ↦ elim (execute-WasAccepted symbol tx s) [
          | inl same ↦ inl (kept ∙ same)
          | inr accepted ↦
              inr (subst (λ q. WasAccepted symbol q (tx ∷ txs) s) (sym kept) (accepted txs))
        ]
      ]
