-- ===== src/Bindings/Avs/OwnerEvents.antt =====
-- The events of contracts/bindings/BlocklessAVS/binding.go: their structs, `Next` of their iterators, and the functions that filter,
-- watch and parse their logs. An empty list of addresses lets every address pass.
use blockless_avs_tools.Base.{ℕ, List, [], ◌∷◌, map, Bool, Option, Result, ok}
use blockless_avs_tools.Base.Effects.{Effect, ◌>>=◌, lift}
use blockless_avs_tools.Bindings.Values.{address}
use blockless_avs_tools.Bindings.Handles.{Filterer}
use blockless_avs_tools.Bindings.Iterator.{
  LogSource, Unpack, EventType, Iterator, Selected, new_iterator, parse, next,
}
use blockless_avs_tools.Bindings.Watch.{Signal, Watching, watch_loop}

pub record Initialized (Log : Type 0) : Type 0 where
  pub version : ℕ
  pub raw : Log

module _ {Bound Log : Type 0} (unpack : Unpack Bound Log (Initialized Log)) where
  abbrev pub initialized_type : EventType Bound Log (Initialized Log)
  initialized_type = record { unpack_log = unpack; set_raw = λ log e. record e { raw = log } }

  unfoldable pub next_initialized :
      {Feed : Type 0}
      → Selected Log
      → Option Log
      → Iterator Bound Feed (Initialized Log)
      → Bool × Iterator Bound Feed (Initialized Log)
  next_initialized = next initialized_type

  unfoldable pub parse_initialized : Filterer Bound → Log → Result (Initialized Log)
  parse_initialized f log = parse initialized_type (f.contract) "Initialized" log

module _ {W Bound FilterOpts WatchOpts Feed Log : Type 0}
    (source : LogSource W Bound FilterOpts WatchOpts Feed) where
  unfoldable pub filter_initialized :
      Filterer Bound → FilterOpts → Effect W (Iterator Bound Feed (Initialized Log))
  filter_initialized f opts = do
    feed ← source.filter_logs (f.contract) opts "Initialized" []
    lift (ok (new_iterator (f.contract) "Initialized" feed))

  unfoldable pub watch_initialized :
      Unpack Bound Log (Initialized Log)
      → Filterer Bound
      → WatchOpts
      → Effect W
          (Feed × (Signal Log → Watching (Initialized Log) → Option (Watching (Initialized Log))))
  watch_initialized unpack f opts = do
    feed ← source.watch_logs (f.contract) opts "Initialized" []
    lift (ok (feed, watch_loop (initialized_type unpack) (f.contract) "Initialized"))

pub record OwnershipTransferred (Log : Type 0) : Type 0 where
  pub previous_owner : ℕ
  pub new_owner : ℕ
  pub raw : Log

module _ {Bound Log : Type 0} (unpack : Unpack Bound Log (OwnershipTransferred Log)) where
  abbrev pub ownership_transferred_type : EventType Bound Log (OwnershipTransferred Log)
  ownership_transferred_type = record {
    unpack_log = unpack;
    set_raw = λ log e. record e { raw = log };
  }

  unfoldable pub next_ownership_transferred :
      {Feed : Type 0}
      → Selected Log
      → Option Log
      → Iterator Bound Feed (OwnershipTransferred Log)
      → Bool × Iterator Bound Feed (OwnershipTransferred Log)
  next_ownership_transferred = next ownership_transferred_type

  unfoldable pub parse_ownership_transferred :
      Filterer Bound → Log → Result (OwnershipTransferred Log)
  parse_ownership_transferred f log =
      parse ownership_transferred_type (f.contract) "OwnershipTransferred" log

module _ {W Bound FilterOpts WatchOpts Feed Log : Type 0}
    (source : LogSource W Bound FilterOpts WatchOpts Feed) where
  unfoldable pub filter_ownership_transferred :
      Filterer Bound
      → FilterOpts
      → List ℕ
      → List ℕ
      → Effect W (Iterator Bound Feed (OwnershipTransferred Log))
  filter_ownership_transferred f opts previous_owner new_owner = do
    feed ←
        source.filter_logs (f.contract) opts "OwnershipTransferred"
          (map address previous_owner ∷ map address new_owner ∷ [])
    lift (ok (new_iterator (f.contract) "OwnershipTransferred" feed))

  unfoldable pub watch_ownership_transferred :
      Unpack Bound Log (OwnershipTransferred Log)
      → Filterer Bound
      → WatchOpts
      → List ℕ
      → List ℕ
      → Effect W (
          Feed
          × (Signal Log
              → Watching (OwnershipTransferred Log)
              → Option (Watching (OwnershipTransferred Log))))
  watch_ownership_transferred unpack f opts previous_owner new_owner = do
    feed ←
        source.watch_logs (f.contract) opts "OwnershipTransferred"
          (map address previous_owner ∷ map address new_owner ∷ [])
    lift (
        ok (
          feed,
          watch_loop (ownership_transferred_type unpack) (f.contract) "OwnershipTransferred",
        ))
