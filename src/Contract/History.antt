-- ===== src/Contract/History.antt =====
-- The oracle's storage over any sequence of transactions in blocks whose time does not go back.
use blockless_avs_tools.Base.{
  ℕ, ◌+◌, ◌≤◌, ◌<◌, ◌≡◌, refl, ◌⊎◌, inl, inr, String, [], arith, ==_refl, Bool-cases, ◌==◌,
  string_eq, lookup_or, ap, ◌∙◌,
}
use text.Mathlib.TextEquality.{eq_iff}
use blockless_avs_tools.Bindings.{OracleRequest, NonSignerStakesAndSignature}
use blockless_avs_tools.Contract.{
  OnchainPrice, zero_onchain_price, done, Storage, Env, OracleUpdate, AggregatorUpdated, Checker,
  price, initialize, set_aggregator, freeze_operator, update_oracle_price,
}
use blockless_avs_tools.Contract.Acceptance.{update_oracle_price_inv}
use blockless_avs_tools.Contract.Update.{price-update_oracle_price}

price-eq_of_prices :
    (symbol : String) (s s' : Storage) → s'.prices ≡ s.prices → price symbol s' ≡ price symbol s
unfolding price
price-eq_of_prices symbol s s' e = ap (λ m. lookup_or symbol m zero_onchain_price) e

-- The storage of a new proxy.
abbrev pub no_storage : Storage
no_storage = record { owner = 0; aggregator = 0; prices = [] }

-- The storage, and the time of the latest block.
pub record Ledger : Type 0 where
  pub storage : Storage
  pub now : ℕ

module _ (checker : Checker) where
  -- A successful transaction in a block of time `env.block_timestamp`; one that reverts changes
  -- nothing.
  pub data Step : Ledger → Ledger → Type 0 where
    updated :
        (c : Ledger) (env : Env) (req : OracleRequest) (p : OnchainPrice)
        (stakes : NonSignerStakesAndSignature) (s' : Storage) (event : OracleUpdate)
        → c.now ≤ env.block_timestamp
        → update_oracle_price checker env req p stakes c.storage ≡ done (s', event)
        → Step c (record { storage = s'; now = env.block_timestamp })
    aggregator_set :
        (c : Ledger) (env : Env) (a : ℕ) (s' : Storage) (event : AggregatorUpdated)
        → c.now ≤ env.block_timestamp
        → set_aggregator env a c.storage ≡ done (s', event)
        → Step c (record { storage = s'; now = env.block_timestamp })
    frozen :
        (c : Ledger) (env : Env) (a : ℕ) (s' : Storage)
        → c.now ≤ env.block_timestamp
        → freeze_operator env a c.storage ≡ done s'
        → Step c (record { storage = s'; now = env.block_timestamp })

  -- After `initialize`, with no price.
  pub data Reach : Ledger → Type 0 where
    initialized :
        (owner aggregator now : ℕ)
        → Reach (record { storage = (initialize owner aggregator no_storage).0; now = now })
    next : {c d : Ledger} → Reach c → Step c d → Reach d

  -- The price that is read for a symbol: none yet, or one that was valid and is not ahead of time.
  abbrev pub HasPrice : Ledger → String → Type 0
  HasPrice c symbol =
      (price symbol c.storage ≡ zero_onchain_price)
      ⊎ (((price symbol c.storage).symbol ≡ symbol)
          × (0 < (price symbol c.storage).price)
          × ((price symbol c.storage).timestamp ≤ c.now))

  HasPrice-keep :
      (c d : Ledger) (symbol : String)
      → price symbol d.storage ≡ price symbol c.storage
      → c.now ≤ d.now
      → HasPrice c symbol
      → HasPrice d symbol
  HasPrice-keep c d symbol e later (inl none_yet) = inl (e ∙ none_yet)
  HasPrice-keep c d symbol e later (inr q) = inr (rw e (q.0, q.1, omega arith))

  Step-HasPrice :
      {c d : Ledger} (symbol : String) → Step c d → HasPrice c symbol → HasPrice d symbol
  unfolding set_aggregator freeze_operator
  Step-HasPrice symbol (updated c env req p stakes s' event later h) q =
      let (latest, _, _) = price-update_oracle_price checker env req p stakes c.storage symbol h in
      let (_, fresh, _) = update_oracle_price_inv checker env req p stakes c.storage h in
      elim (Bool-cases (p.symbol == symbol)) [
        | inl same ↦
            let e : price symbol s' ≡ p = latest ∙ rw same in
            inr (rw e ((eq_iff p.symbol symbol).0 same, fresh.positive, fresh.not_in_future))
        | inr other ↦
            HasPrice-keep c (record { storage = s'; now = env.block_timestamp }) symbol
              (latest ∙ rw other) later q
      ]
  Step-HasPrice symbol (aggregator_set c env a s' event later h) q =
      HasPrice-keep c (record { storage = s'; now = env.block_timestamp }) symbol
        (price-eq_of_prices symbol c.storage s' (ground arith)) later q
  Step-HasPrice symbol (frozen c env a s' later h) q =
      HasPrice-keep c (record { storage = s'; now = env.block_timestamp }) symbol
        (price-eq_of_prices symbol c.storage s' (ground arith)) later q

  -- In every reachable storage the price read for a symbol is the zero price, or it bears that
  -- symbol, is positive, and is not later than the latest block.
  pub Reach-HasPrice : {c : Ledger} (symbol : String) → Reach c → HasPrice c symbol
  unfolding price initialize
  Reach-HasPrice symbol (initialized owner aggregator now) = inl refl
  Reach-HasPrice symbol (next r st) = Step-HasPrice symbol st (Reach-HasPrice symbol r)

  -- A later update may bring an older price, but never by more than a minute.
  pub update_oracle_price-goes_back_at_most_a_minute :
      {c : Ledger} (env : Env) (req : OracleRequest) (p : OnchainPrice)
      (stakes : NonSignerStakesAndSignature) {s' : Storage} {event : OracleUpdate}
      → Reach c
      → c.now ≤ env.block_timestamp
      → update_oracle_price checker env req p stakes c.storage ≡ done (s', event)
      → (price p.symbol c.storage).timestamp ≤ (price p.symbol s').timestamp + 60
  update_oracle_price-goes_back_at_most_a_minute {c} env req p stakes {s'} r later h =
      let (latest, _, _) =
        price-update_oracle_price checker env req p stakes c.storage p.symbol h in
      let (_, fresh, _) = update_oracle_price_inv checker env req p stakes c.storage h in
      let e : price p.symbol s' ≡ p = latest ∙ rw (==_refl p.symbol) in
      elim (Reach-HasPrice p.symbol r) [
        | inl none_yet ↦ rw (none_yet, e) (omega arith)
        | inr q ↦ rw e (omega (arith, q, fresh))
      ]
