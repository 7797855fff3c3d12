-- ===== src/Contract/Update.antt =====
-- What a successful `updateOraclePrice` has changed, and what it rests on.
use blockless_avs_tools.Base.{
  ℕ, ◌+◌, ◌≤◌, ◌<◌, ◌≡◌, ◌≢◌, inr, String, List, some, arith, get_elem?, length, lookup-insert,
  string_eq, ◌==◌, if◌then◌else◌, ap, ==_refl, subst,
}
use blockless_avs_tools.Aggregator.Rpc.{oracle_request}
use blockless_avs_tools.Bindings.{
  Price, OracleRequest, NonSignerStakesAndSignature, QuorumStakeTotals,
}
use blockless_avs_tools.Contract.{
  OnchainPrice, done, Storage, Env, OracleUpdate, Checker, price, update_oracle_price,
}
use blockless_avs_tools.Contract.Thresholds.{MeetsThreshold, check_thresholds_iff}
use blockless_avs_tools.Contract.Acceptance.{
  IsAuthorized, IsFresh, update_oracle_price_inv, update_oracle_price_accepts,
}

module _ (checker : Checker) (env : Env) (req : OracleRequest) (p : OnchainPrice)
    (stakes : NonSignerStakesAndSignature) (s : Storage) where
  -- A successful update sets the latest price of its own symbol and of no other, and changes
  -- neither the owner nor the aggregator.
  pub price-update_oracle_price :
      {s' : Storage} {event : OracleUpdate} (symbol : String)
      → update_oracle_price checker env req p stakes s ≡ done (s', event)
      → (price symbol s' ≡ (if p.symbol == symbol then p else price symbol s))
        × (s'.owner ≡ s.owner)
        × (s'.aggregator ≡ s.aggregator)
  unfolding price
  price-update_oracle_price symbol h =
      let (_, _, e) = update_oracle_price_inv checker env req p stakes s h in
      rw e (ground (arith, lookup-insert p.symbol symbol p s.prices))

  -- An update for a request as the aggregator builds it needs the whole stake of quorum 0: where the
  -- signatures check with some stakes, what was signed there is at least the total.
  pub update_oracle_price-full_stake :
      {s' : Storage} {event : OracleUpdate} {totals : QuorumStakeTotals} {hash : List ℕ} (q : Price)
      (block : ℕ)
      → req ≡ oracle_request q block
      → checker.check_signatures
          (checker.hash_price p)
          req.quorum_numbers
          req.reference_block_number
          stakes
        ≡ some (totals, hash)
      → update_oracle_price checker env req p stakes s ≡ done (s', event)
      → (signed : ℕ) × (total : ℕ) × (get_elem? totals.signed_stake_for_quorum 0 ≡ some signed)
        × (get_elem? totals.total_stake_for_quorum 0 ≡ some total)
        × (total ≤ signed)
  unfolding oracle_request
  update_oracle_price-full_stake {totals = totals} q block e c h =
      let (a, _, _) = update_oracle_price_inv checker env req p stakes s h in
      let same : a.totals ≡ totals = ground arith in
      let percentage : req.quorum_threshold_percentage ≡ 100 =
        ap (λ r. r.quorum_threshold_percentage) e in
      let one : length req.quorum_numbers ≡ 1 = ap (λ r. length r.quorum_numbers) e in
      let at_zero = (check_thresholds_iff _ _ a.totals).0 a.thresholds 0 (omega arith) in
      let meets : MeetsThreshold 100 totals 0 =
        subst (λ t. MeetsThreshold 100 t 0) same
          (subst (λ k. MeetsThreshold k a.totals 0) percentage at_zero) in
      let (signed, total, f, g, enough, _) = meets in (signed, total, f, g, omega arith)

  -- A price that is older than the stored one, and differs from it, is accepted all the same when
  -- it is within the minute: the stored time goes back.
  pub older_price_accepted :
      (a : IsAuthorized checker env req p stakes s)
      → 0 < p.price
      → p.timestamp < (price p.symbol s).timestamp
      → (price p.symbol s).timestamp ≤ env.block_timestamp
      → env.block_timestamp ≤ p.timestamp + 60
      → 60 ≤ env.block_timestamp
      → (price p.symbol s).price ≢ p.price
      → (r : Storage × OracleUpdate) × (update_oracle_price checker env req p stakes s ≡ done r)
        × ((price p.symbol r.0).timestamp < (price p.symbol s).timestamp)
  older_price_accepted a pos older not_future recent late differs =
      let fresh : IsFresh env p s = record {
        positive = pos;
        not_in_future = omega arith;
        in_window = recent;
        after_a_minute = late;
        changed = inr differs;
      } in
      let accepted = update_oracle_price_accepts checker env req p stakes s a fresh in
      let (latest, _, _) = price-update_oracle_price p.symbol accepted in
      (_, accepted, rw (latest, ==_refl p.symbol) older)
