-- ===== src/Bindings/Avs/PauseEvents.antt =====
-- The events of contracts/bindings/BlocklessAVS/binding.go: their structs, `Next` of their iterators, and the functions that filter,
-- watch and parse their logs. An empty list of addresses lets every address pass.
use blockless_avs_tools.Base.{ℕ, ℤ, List, [], ◌∷◌, map, Bool, Option, Result, ok}
use blockless_avs_tools.Base.Effects.{Effect, ◌>>=◌, lift}
use blockless_avs_tools.Bindings.Values.{address}
use blockless_avs_tools.Bindings.Handles.{Filterer}
use blockless_avs_tools.Bindings.Iterator.{
  LogSource, Unpack, EventType, Iterator, Selected, new_iterator, parse, next,
}
use blockless_avs_tools.Bindings.Watch.{Signal, Watching, watch_loop}

pub record Paused (Log : Type 0) : Type 0 where
  pub account : ℕ
  pub new_paused_status : Option ℤ
  pub raw : Log

module _ {Bound Log : Type 0} (unpack : Unpack Bound Log (Paused Log)) where
  abbrev pub paused_type : EventType Bound Log (Paused Log)
  paused_type = record { unpack_log = unpack; set_raw = λ log e. record e { raw = log } }

  unfoldable pub next_paused :
      {Feed : Type 0}
      → Selected Log
      → Option Log
      → Iterator Bound Feed (Paused Log)
      → Bool × Iterator Bound Feed (Paused Log)
  next_paused = next paused_type

  unfoldable pub parse_paused : Filterer Bound → Log → Result (Paused Log)
  parse_paused f log = parse paused_type (f.contract) "Paused" log

module _ {W Bound FilterOpts WatchOpts Feed Log : Type 0}
    (source : LogSource W Bound FilterOpts WatchOpts Feed) where
  unfoldable pub filter_paused :
      Filterer Bound → FilterOpts → List ℕ → Effect W (Iterator Bound Feed (Paused Log))
  filter_paused f opts account = do
    feed ← source.filter_logs (f.contract) opts "Paused" (map address account ∷ [])
    lift (ok (new_iterator (f.contract) "Paused" feed))

  unfoldable pub watch_paused :
      Unpack Bound Log (Paused Log)
      → Filterer Bound
      → WatchOpts
      → List ℕ
      → Effect W (Feed × (Signal Log → Watching (Paused Log) → Option (Watching (Paused Log))))
  watch_paused unpack f opts account = do
    feed ← source.watch_logs (f.contract) opts "Paused" (map address account ∷ [])
    lift (ok (feed, watch_loop (paused_type unpack) (f.contract) "Paused"))

pub record PauserRegistrySet (Log : Type 0) : Type 0 where
  pub pauser_registry : ℕ
  pub new_pauser_registry : ℕ
  pub raw : Log

module _ {Bound Log : Type 0} (unpack : Unpack Bound Log (PauserRegistrySet Log)) where
  abbrev pub pauser_registry_set_type : EventType Bound Log (PauserRegistrySet Log)
  pauser_registry_set_type = record {
    unpack_log = unpack;
    set_raw = λ log e. record e { raw = log };
  }

  unfoldable pub next_pauser_registry_set :
      {Feed : Type 0}
      → Selected Log
      → Option Log
      → Iterator Bound Feed (PauserRegistrySet Log)
      → Bool × Iterator Bound Feed (PauserRegistrySet Log)
  next_pauser_registry_set = next pauser_registry_set_type

  unfoldable pub parse_pauser_registry_set : Filterer Bound → Log → Result (PauserRegistrySet Log)
  parse_pauser_registry_set f log =
      parse pauser_registry_set_type (f.contract) "PauserRegistrySet" log

module _ {W Bound FilterOpts WatchOpts Feed Log : Type 0}
    (source : LogSource W Bound FilterOpts WatchOpts Feed) where
  unfoldable pub filter_pauser_registry_set :
      Filterer Bound → FilterOpts → Effect W (Iterator Bound Feed (PauserRegistrySet Log))
  filter_pauser_registry_set f opts = do
    feed ← source.filter_logs (f.contract) opts "PauserRegistrySet" []
    lift (ok (new_iterator (f.contract) "PauserRegistrySet" feed))

  unfoldable pub watch_pauser_registry_set :
      Unpack Bound Log (PauserRegistrySet Log)
      → Filterer Bound
      → WatchOpts
      → Effect W (
          Feed
          × (Signal Log
              → Watching (PauserRegistrySet Log)
              → Option (Watching (PauserRegistrySet Log))))
  watch_pauser_registry_set unpack f opts = do
    feed ← source.watch_logs (f.contract) opts "PauserRegistrySet" []
    lift (ok (feed, watch_loop (pauser_registry_set_type unpack) (f.contract) "PauserRegistrySet"))

pub record Unpaused (Log : Type 0) : Type 0 where
  pub account : ℕ
  pub new_paused_status : Option ℤ
  pub raw : Log

module _ {Bound Log : Type 0} (unpack : Unpack Bound Log (Unpaused Log)) where
  abbrev pub unpaused_type : EventType Bound Log (Unpaused Log)
  unpaused_type = record { unpack_log = unpack; set_raw = λ log e. record e { raw = log } }

  unfoldable pub next_unpaused :
      {Feed : Type 0}
      → Selected Log
      → Option Log
      → Iterator Bound Feed (Unpaused Log)
      → Bool × Iterator Bound Feed (Unpaused Log)
  next_unpaused = next unpaused_type

  unfoldable pub parse_unpaused : Filterer Bound → Log → Result (Unpaused Log)
  parse_unpaused f log = parse unpaused_type (f.contract) "Unpaused" log

module _ {W Bound FilterOpts WatchOpts Feed Log : Type 0}
    (source : LogSource W Bound FilterOpts WatchOpts Feed) where
  unfoldable pub filter_unpaused :
      Filterer Bound → FilterOpts → List ℕ → Effect W (Iterator Bound Feed (Unpaused Log))
  filter_unpaused f opts account = do
    feed ← source.filter_logs (f.contract) opts "Unpaused" (map address account ∷ [])
    lift (ok (new_iterator (f.contract) "Unpaused" feed))

  unfoldable pub watch_unpaused :
      Unpack Bound Log (Unpaused Log)
      → Filterer Bound
      → WatchOpts
      → List ℕ
      → Effect W (Feed × (Signal Log → Watching (Unpaused Log) → Option (Watching (Unpaused Log))))
  watch_unpaused unpack f opts account = do
    feed ← source.watch_logs (f.contract) opts "Unpaused" (map address account ∷ [])
    lift (ok (feed, watch_loop (unpaused_type unpack) (f.contract) "Unpaused"))
