-- ===== src/Contract/Acceptance.antt =====
-- Exactly when `validateOraclePrice` and `updateOraclePrice` succeed.
use blockless_avs_tools.Base.{
  ℕ, ◌+◌, ◌^◌, ◌≤◌, ◌<◌, ◌≡◌, ◌≢◌, ◌↔◌, ◌⊎◌, inl, inr, List, some, arith, Option-cases, u32, length,
  insert, string_eq,
}
use blockless_avs_tools.Bindings.{OracleRequest, NonSignerStakesAndSignature, QuorumStakeTotals}
use blockless_avs_tools.Contract.{
  OnchainPrice, done, Storage, Env, OracleUpdate, Checker, price, check_thresholds,
  validate_oracle_price, update_oracle_price,
}

-- What `validateOraclePrice` asks of a price.
pub record IsFresh (env : Env) (p : OnchainPrice) (s : Storage) : Type 0 where
  pub positive : 0 < p.price
  pub not_in_future : p.timestamp ≤ env.block_timestamp
  pub in_window : env.block_timestamp ≤ p.timestamp + 60
  pub after_a_minute : 60 ≤ env.block_timestamp
  pub changed :
      ((price p.symbol s).timestamp + 60 < env.block_timestamp)
      ⊎ ((price p.symbol s).price ≢ p.price)

pub validate_oracle_price_iff :
    (env : Env) (p : OnchainPrice) (s : Storage)
    → (validate_oracle_price env p s ≡ done tt) ↔ IsFresh env p s
unfolding validate_oracle_price
validate_oracle_price_iff env p s = (λ h. ground arith, λ h. ground arith)

-- What the rest of `updateOraclePrice` asks.
pub record IsAuthorized (checker : Checker) (env : Env) (req : OracleRequest) (p : OnchainPrice)
    (stakes : NonSignerStakesAndSignature) (s : Storage) : Type 0 where
  pub from_aggregator : env.sender ≡ s.aggregator
  pub not_ahead : req.reference_block_number ≤ u32 env.block_number
  pub not_stale : u32 env.block_number ≤ req.reference_block_number + 150
  pub no_overflow : req.reference_block_number + 150 < 2 ^ 32
  pub totals : QuorumStakeTotals
  pub hash_of_non_signers : List ℕ
  pub signed :
      checker.check_signatures
        (checker.hash_price p)
        req.quorum_numbers
        req.reference_block_number
        stakes
      ≡ some (totals, hash_of_non_signers)
  pub thresholds :
      check_thresholds (length req.quorum_numbers) 0 req.quorum_threshold_percentage totals
      ≡ done tt

module _ (checker : Checker) (env : Env) (req : OracleRequest) (p : OnchainPrice)
    (stakes : NonSignerStakesAndSignature) (s : Storage) where
  pub update_oracle_price_accepts :
      (a : IsAuthorized checker env req p stakes s)
      → IsFresh env p s
      → update_oracle_price checker env req p stakes s
        ≡ done (
          record s { prices = insert p.symbol p s.prices },
          record {
            price_response = p;
            block_number = u32 env.block_number;
            hash_of_non_signers = a.hash_of_non_signers;
          },
        )
  unfolding update_oracle_price
  update_oracle_price_accepts a f =
      let fresh : validate_oracle_price env p s ≡ done tt =
        (validate_oracle_price_iff env p s).1 f in
      ground arith

  pub update_oracle_price_inv :
      {s' : Storage} {event : OracleUpdate}
      → update_oracle_price checker env req p stakes s ≡ done (s', event)
      → IsAuthorized checker env req p stakes s
        × IsFresh env p s
        × (s' ≡ record s { prices = insert p.symbol p s.prices })
  unfolding update_oracle_price
  update_oracle_price_inv h =
      elim (Option-cases (
        checker.check_signatures (checker.hash_price p) req.quorum_numbers
          req.reference_block_number stakes)) [
            | inl e ↦ ground arith
            | inr ((totals, hash), e) ↦ (
              record {
                from_aggregator = ground arith;
                not_ahead = ground arith;
                not_stale = ground arith;
                no_overflow = ground arith;
                totals = totals;
                hash_of_non_signers = hash;
                signed = e;
                thresholds = ground arith;
              },
              (validate_oracle_price_iff env p s).0 (ground arith),
              ground arith,
            )
          ]

  -- An update succeeds exactly when it comes from the aggregator, its reference block is not ahead
  -- and at most 150 blocks old, with no overflow of the block that ends this window, its signatures
  -- check, every quorum meets the threshold, and the price is positive, at most a minute old, not in
  -- the future, and not a repetition of a price that is itself at most a minute old; the time of the
  -- block is at least 60.
  pub update_oracle_price_iff :
      ((r : Storage × OracleUpdate) × (update_oracle_price checker env req p stakes s ≡ done r))
      ↔ (IsAuthorized checker env req p stakes s × IsFresh env p s)
  update_oracle_price_iff = (
    λ h. let (a, f, _) = update_oracle_price_inv {s' = h.0.0} {event = h.0.1} h.1 in (a, f),
    λ h. (_, update_oracle_price_accepts h.0 h.1),
  )
