-- ===== src/Bindings/Avs/OracleEvents.antt =====
-- The events of contracts/bindings/BlocklessAVS/binding.go: their structs, `Next` of their iterators, and the functions that filter,
-- watch and parse their logs. An empty list of addresses lets every address pass.
use blockless_avs_tools.Base.{ℕ, List, [], ◌∷◌, map, Bool, Option, Result, ok}
use blockless_avs_tools.Base.Effects.{Effect, ◌>>=◌, lift}
use blockless_avs_tools.Bindings.{Price, OraclePriceResponseMetadata}
use blockless_avs_tools.Bindings.Values.{address}
use blockless_avs_tools.Bindings.Handles.{Filterer}
use blockless_avs_tools.Bindings.Iterator.{
  LogSource, Unpack, EventType, Iterator, Selected, new_iterator, parse, next,
}
use blockless_avs_tools.Bindings.Watch.{Signal, Watching, watch_loop}

pub record AggregatorUpdated (Log : Type 0) : Type 0 where
  pub previous_aggregator : ℕ
  pub new_aggregator : ℕ
  pub raw : Log

module _ {Bound Log : Type 0} (unpack : Unpack Bound Log (AggregatorUpdated Log)) where
  abbrev pub aggregator_updated_type : EventType Bound Log (AggregatorUpdated Log)
  aggregator_updated_type = record {
    unpack_log = unpack;
    set_raw = λ log e. record e { raw = log };
  }

  unfoldable pub next_aggregator_updated :
      {Feed : Type 0}
      → Selected Log
      → Option Log
      → Iterator Bound Feed (AggregatorUpdated Log)
      → Bool × Iterator Bound Feed (AggregatorUpdated Log)
  next_aggregator_updated = next aggregator_updated_type

  unfoldable pub parse_aggregator_updated : Filterer Bound → Log → Result (AggregatorUpdated Log)
  parse_aggregator_updated f log =
      parse aggregator_updated_type (f.contract) "AggregatorUpdated" log

module _ {W Bound FilterOpts WatchOpts Feed Log : Type 0}
    (source : LogSource W Bound FilterOpts WatchOpts Feed) where
  unfoldable pub filter_aggregator_updated :
      Filterer Bound
      → FilterOpts
      → List ℕ
      → List ℕ
      → Effect W (Iterator Bound Feed (AggregatorUpdated Log))
  filter_aggregator_updated f opts previous_aggregator new_aggregator = do
    feed ←
        source.filter_logs (f.contract) opts "AggregatorUpdated"
          (map address previous_aggregator ∷ map address new_aggregator ∷ [])
    lift (ok (new_iterator (f.contract) "AggregatorUpdated" feed))

  unfoldable pub watch_aggregator_updated :
      Unpack Bound Log (AggregatorUpdated Log)
      → Filterer Bound
      → WatchOpts
      → List ℕ
      → List ℕ
      → Effect W (
          Feed
          × (Signal Log
              → Watching (AggregatorUpdated Log)
              → Option (Watching (AggregatorUpdated Log))))
  watch_aggregator_updated unpack f opts previous_aggregator new_aggregator = do
    feed ←
        source.watch_logs (f.contract) opts "AggregatorUpdated"
          (map address previous_aggregator ∷ map address new_aggregator ∷ [])
    lift (ok (feed, watch_loop (aggregator_updated_type unpack) (f.contract) "AggregatorUpdated"))

pub record OracleUpdate (Log : Type 0) : Type 0 where
  pub price_response : Price
  pub oracle_price_response_metadata : OraclePriceResponseMetadata
  pub raw : Log

module _ {Bound Log : Type 0} (unpack : Unpack Bound Log (OracleUpdate Log)) where
  abbrev pub oracle_update_type : EventType Bound Log (OracleUpdate Log)
  oracle_update_type = record { unpack_log = unpack; set_raw = λ log e. record e { raw = log } }

  unfoldable pub next_oracle_update :
      {Feed : Type 0}
      → Selected Log
      → Option Log
      → Iterator Bound Feed (OracleUpdate Log)
      → Bool × Iterator Bound Feed (OracleUpdate Log)
  next_oracle_update = next oracle_update_type

  unfoldable pub parse_oracle_update : Filterer Bound → Log → Result (OracleUpdate Log)
  parse_oracle_update f log = parse oracle_update_type (f.contract) "OracleUpdate" log

module _ {W Bound FilterOpts WatchOpts Feed Log : Type 0}
    (source : LogSource W Bound FilterOpts WatchOpts Feed) where
  unfoldable pub filter_oracle_update :
      Filterer Bound → FilterOpts → Effect W (Iterator Bound Feed (OracleUpdate Log))
  filter_oracle_update f opts = do
    feed ← source.filter_logs (f.contract) opts "OracleUpdate" []
    lift (ok (new_iterator (f.contract) "OracleUpdate" feed))

  unfoldable pub watch_oracle_update :
      Unpack Bound Log (OracleUpdate Log)
      → Filterer Bound
      → WatchOpts
      → Effect W
          (Feed × (Signal Log → Watching (OracleUpdate Log) → Option (Watching (OracleUpdate Log))))
  watch_oracle_update unpack f opts = do
    feed ← source.watch_logs (f.contract) opts "OracleUpdate" []
    lift (ok (feed, watch_loop (oracle_update_type unpack) (f.contract) "OracleUpdate"))

pub record StaleStakesForbiddenUpdate (Log : Type 0) : Type 0 where
  pub value : Bool
  pub raw : Log

module _ {Bound Log : Type 0} (unpack : Unpack Bound Log (StaleStakesForbiddenUpdate Log)) where
  abbrev pub stale_stakes_forbidden_update_type :
      EventType Bound Log (StaleStakesForbiddenUpdate Log)
  stale_stakes_forbidden_update_type = record {
    unpack_log = unpack;
    set_raw = λ log e. record e { raw = log };
  }

  unfoldable pub next_stale_stakes_forbidden_update :
      {Feed : Type 0}
      → Selected Log
      → Option Log
      → Iterator Bound Feed (StaleStakesForbiddenUpdate Log)
      → Bool × Iterator Bound Feed (StaleStakesForbiddenUpdate Log)
  next_stale_stakes_forbidden_update = next stale_stakes_forbidden_update_type

  unfoldable pub parse_stale_stakes_forbidden_update :
      Filterer Bound → Log → Result (StaleStakesForbiddenUpdate Log)
  parse_stale_stakes_forbidden_update f log =
      parse stale_stakes_forbidden_update_type (f.contract) "StaleStakesForbiddenUpdate" log

module _ {W Bound FilterOpts WatchOpts Feed Log : Type 0}
    (source : LogSource W Bound FilterOpts WatchOpts Feed) where
  unfoldable pub filter_stale_stakes_forbidden_update :
      Filterer Bound → FilterOpts → Effect W (Iterator Bound Feed (StaleStakesForbiddenUpdate Log))
  filter_stale_stakes_forbidden_update f opts = do
    feed ← source.filter_logs (f.contract) opts "StaleStakesForbiddenUpdate" []
    lift (ok (new_iterator (f.contract) "StaleStakesForbiddenUpdate" feed))

  unfoldable pub watch_stale_stakes_forbidden_update :
      Unpack Bound Log (StaleStakesForbiddenUpdate Log)
      → Filterer Bound
      → WatchOpts
      → Effect W (
          Feed
          × (Signal Log
              → Watching (StaleStakesForbiddenUpdate Log)
              → Option (Watching (StaleStakesForbiddenUpdate Log))))
  watch_stale_stakes_forbidden_update unpack f opts = do
    feed ← source.watch_logs (f.contract) opts "StaleStakesForbiddenUpdate" []
    lift (
        ok (
          feed,
          watch_loop (stale_stakes_forbidden_update_type unpack) (f.contract)
              "StaleStakesForbiddenUpdate",
        ))
