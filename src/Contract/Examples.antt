-- ===== src/Contract/Examples.antt =====
-- A concrete checker, request and storage, and the theorems on the contract at them.
use blockless_avs_tools.Base.{
  ℕ, ◌⊎◌, ◌+◌, ◌≤◌, ◌<◌, List, [], ◌∷◌, some, ◌≡◌, ◌↔◌, refl, arith, pos, get_elem?, insert,
  string_eq, nat_eq,
}
use blockless_avs_tools.Bindings.{
  Price, OracleRequest, NonSignerStakesAndSignature, QuorumStakeTotals,
}
use blockless_avs_tools.Aggregator.Rpc.{oracle_request}
use blockless_avs_tools.Contract.{
  OnchainPrice, done, Storage, Env, OracleUpdate, Checker, price, check_thresholds,
  validate_oracle_price, update_oracle_price, initialize, set_aggregator,
}
use blockless_avs_tools.Contract.Thresholds.{MeetsThreshold, check_thresholds_iff}
use blockless_avs_tools.Contract.Acceptance.{IsFresh, IsAuthorized, update_oracle_price_iff}
use blockless_avs_tools.Contract.Replay.{
  update, new_aggregator, Transaction, replay, replay_aggregator, execute, run, run-replay,
}
use blockless_avs_tools.Contract.Signed.{WasAccepted, run-WasAccepted}
use blockless_avs_tools.Contract.Update.{update_oracle_price-full_stake, older_price_accepted}
use blockless_avs_tools.Contract.History.{
  Ledger, Reach, initialized, next, updated, HasPrice, Reach-HasPrice,
  update_oracle_price-goes_back_at_most_a_minute,
}

abbrev totals : QuorumStakeTotals
totals = record { signed_stake_for_quorum = 10 ∷ []; total_stake_for_quorum = 10 ∷ [] }

abbrev pub checker : Checker
checker = record {
  hash_price = λ p. p.timestamp ∷ [];
  check_signatures = λ hash quorums block stakes. some (totals, hash);
}

abbrev pub env : Env
env = record { sender = 7; block_number = 100; block_timestamp = 1000 }

abbrev pub no_prices : Storage
no_prices = record { owner = 1; aggregator = 7; prices = [] }

abbrev at_990 : OnchainPrice
at_990 = record { symbol = "bitcoin"; price = 42; timestamp = 990 }

abbrev pub at_995 : OnchainPrice
at_995 = record { symbol = "bitcoin"; price = 43; timestamp = 995 }

abbrev signed_price : Price
signed_price = record { symbol = "bitcoin"; price = some (pos 42); timestamp = 990 }

abbrev pub req : OracleRequest
req = oracle_request signed_price 95

abbrev pub stakes : NonSignerStakesAndSignature
stakes = record {
  non_signer_quorum_bitmap_indices = [];
  non_signer_pubkeys = [];
  quorum_apks = [];
  apk_g2 = record { x = (0, 0); y = (0, 0) };
  sigma = record { x = 0; y = 0 };
  quorum_apk_indices = [];
  total_stake_indices = [];
  non_signer_stake_indices = [];
}

abbrev pub event_of : OnchainPrice → OracleUpdate
event_of p = record {
  price_response = p;
  block_number = 100;
  hash_of_non_signers = p.timestamp ∷ [];
}

abbrev pub later_storage : Storage
later_storage = record no_prices { prices = insert "bitcoin" at_995 [] }

check_thresholds_iff_example :
    (check_thresholds 1 0 100 totals ≡ done tt) ↔ ((j : ℕ) → j < 1 → MeetsThreshold 100 totals j)
check_thresholds_iff_example = check_thresholds_iff 1 100 totals

update_oracle_price_iff_example :
    ((r : Storage × OracleUpdate) × (update_oracle_price checker env req at_990 stakes no_prices
        ≡ done r))
    ↔ (IsAuthorized checker env req at_990 stakes no_prices × IsFresh env at_990 no_prices)
update_oracle_price_iff_example = update_oracle_price_iff checker env req at_990 stakes no_prices

pub accepted :
    update_oracle_price checker env req at_995 stakes no_prices
    ≡ done (later_storage, event_of at_995)
unfolding update_oracle_price check_thresholds validate_oracle_price price oracle_request
accepted = refl

update_oracle_price-full_stake_example :
    (signed : ℕ) × (total : ℕ) × (get_elem? totals.signed_stake_for_quorum 0 ≡ some signed)
    × (get_elem? totals.total_stake_for_quorum 0 ≡ some total)
    × (total ≤ signed)
update_oracle_price-full_stake_example =
    update_oracle_price-full_stake checker env req at_995 stakes no_prices signed_price 95 refl refl
      accepted

authorized : IsAuthorized checker env req at_990 stakes later_storage
unfolding check_thresholds oracle_request
authorized = record {
  from_aggregator = refl;
  not_ahead = omega arith;
  not_stale = omega arith;
  no_overflow = omega arith;
  totals = totals;
  hash_of_non_signers = 990 ∷ [];
  signed = refl;
  thresholds = refl;
}

stored : price "bitcoin" later_storage ≡ at_995
unfolding price
stored = refl

older_price_accepted_example :
    (r : Storage × OracleUpdate) × (update_oracle_price checker env req at_990 stakes later_storage
      ≡ done r)
    × ((price "bitcoin" r.0).timestamp < (price "bitcoin" later_storage).timestamp)
unfolding price
older_price_accepted_example =
    older_price_accepted checker env req at_990 stakes later_storage authorized (omega arith)
      (omega arith) (omega arith) (omega arith) (omega arith) (λ e. omega arith)

abbrev started : Ledger
started = record { storage = no_prices; now = 900 }

reached : Reach checker (record { storage = later_storage; now = 1000 })
unfolding initialize
reached =
    next (initialized 1 7 900)
      (updated started env req at_995 stakes later_storage (event_of at_995) (omega arith) accepted)

Reach-HasPrice_example : HasPrice checker (record { storage = later_storage; now = 1000 }) "bitcoin"
Reach-HasPrice_example = Reach-HasPrice checker "bitcoin" reached

abbrev last_storage : Storage
last_storage = record later_storage { prices = insert "bitcoin" at_990 later_storage.prices }

accepted_again :
    update_oracle_price checker env req at_990 stakes later_storage
    ≡ done (last_storage, event_of at_990)
unfolding update_oracle_price check_thresholds validate_oracle_price price oracle_request
accepted_again = refl

update_oracle_price-goes_back_at_most_a_minute_example :
    (price "bitcoin" later_storage).timestamp ≤ (price "bitcoin" last_storage).timestamp + 60
update_oracle_price-goes_back_at_most_a_minute_example =
    update_oracle_price-goes_back_at_most_a_minute checker env req at_990 stakes reached
      (omega arith) accepted_again

-- A price, a new aggregator, and a price from the old one, which reverts.
abbrev pub transactions : List Transaction
transactions =
    update env req at_995 stakes
    ∷ new_aggregator (record env { sender = 1 }) 8
    ∷ update env req at_990 stakes
    ∷ []

run-replay_example :
    let (s, events) = run checker transactions no_prices in
    (price "bitcoin" s ≡ replay "bitcoin" events (price "bitcoin" no_prices))
    × (s.aggregator ≡ replay_aggregator events no_prices.aggregator)
run-replay_example = run-replay checker "bitcoin" transactions no_prices

aggregator_after : (run checker transactions no_prices).0.aggregator ≡ 8
unfolding run execute update_oracle_price set_aggregator oracle_request check_thresholds
    validate_oracle_price
aggregator_after = refl

run-WasAccepted_example :
    (price "bitcoin" (run checker transactions no_prices).0 ≡ price "bitcoin" no_prices)
    ⊎ WasAccepted checker "bitcoin"
        (price "bitcoin" (run checker transactions no_prices).0)
        transactions
        no_prices
run-WasAccepted_example = run-WasAccepted checker "bitcoin" transactions no_prices
