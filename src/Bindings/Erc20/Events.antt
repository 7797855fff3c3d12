-- ===== src/Bindings/Erc20/Events.antt =====
-- The events of contracts/bindings/ERC20Mock/binding.go: their structs, `Next` of their iterators, and the functions that filter,
-- watch and parse their logs. An empty list of addresses lets every address pass.
use blockless_avs_tools.Base.{ℕ, ℤ, List, [], ◌∷◌, map, Bool, Option, Result, ok}
use blockless_avs_tools.Base.Effects.{Effect, ◌>>=◌, lift}
use blockless_avs_tools.Bindings.Values.{address}
use blockless_avs_tools.Bindings.Handles.{Filterer}
use blockless_avs_tools.Bindings.Iterator.{
  LogSource, Unpack, EventType, Iterator, Selected, new_iterator, parse, next,
}
use blockless_avs_tools.Bindings.Watch.{Signal, Watching, watch_loop}

pub record Approval (Log : Type 0) : Type 0 where
  pub owner : ℕ
  pub spender : ℕ
  pub value : Option ℤ
  pub raw : Log

module _ {Bound Log : Type 0} (unpack : Unpack Bound Log (Approval Log)) where
  abbrev pub approval_type : EventType Bound Log (Approval Log)
  approval_type = record { unpack_log = unpack; set_raw = λ log e. record e { raw = log } }

  unfoldable pub next_approval :
      {Feed : Type 0}
      → Selected Log
      → Option Log
      → Iterator Bound Feed (Approval Log)
      → Bool × Iterator Bound Feed (Approval Log)
  next_approval = next approval_type

  unfoldable pub parse_approval : Filterer Bound → Log → Result (Approval Log)
  parse_approval f log = parse approval_type (f.contract) "Approval" log

module _ {W Bound FilterOpts WatchOpts Feed Log : Type 0}
    (source : LogSource W Bound FilterOpts WatchOpts Feed) where
  unfoldable pub filter_approval :
      Filterer Bound → FilterOpts → List ℕ → List ℕ → Effect W (Iterator Bound Feed (Approval Log))
  filter_approval f opts owner spender = do
    feed ←
        source.filter_logs (f.contract) opts "Approval"
          (map address owner ∷ map address spender ∷ [])
    lift (ok (new_iterator (f.contract) "Approval" feed))

  unfoldable pub watch_approval :
      Unpack Bound Log (Approval Log)
      → Filterer Bound
      → WatchOpts
      → List ℕ
      → List ℕ
      → Effect W (Feed × (Signal Log → Watching (Approval Log) → Option (Watching (Approval Log))))
  watch_approval unpack f opts owner spender = do
    feed ←
        source.watch_logs (f.contract) opts "Approval"
          (map address owner ∷ map address spender ∷ [])
    lift (ok (feed, watch_loop (approval_type unpack) (f.contract) "Approval"))

pub record Transfer (Log : Type 0) : Type 0 where
  pub from : ℕ
  pub to : ℕ
  pub value : Option ℤ
  pub raw : Log

module _ {Bound Log : Type 0} (unpack : Unpack Bound Log (Transfer Log)) where
  abbrev pub transfer_type : EventType Bound Log (Transfer Log)
  transfer_type = record { unpack_log = unpack; set_raw = λ log e. record e { raw = log } }

  unfoldable pub next_transfer :
      {Feed : Type 0}
      → Selected Log
      → Option Log
      → Iterator Bound Feed (Transfer Log)
      → Bool × Iterator Bound Feed (Transfer Log)
  next_transfer = next transfer_type

  unfoldable pub parse_transfer : Filterer Bound → Log → Result (Transfer Log)
  parse_transfer f log = parse transfer_type (f.contract) "Transfer" log

module _ {W Bound FilterOpts WatchOpts Feed Log : Type 0}
    (source : LogSource W Bound FilterOpts WatchOpts Feed) where
  unfoldable pub filter_transfer :
      Filterer Bound → FilterOpts → List ℕ → List ℕ → Effect W (Iterator Bound Feed (Transfer Log))
  filter_transfer f opts sender recipient = do
    feed ←
        source.filter_logs (f.contract) opts "Transfer"
          (map address sender ∷ map address recipient ∷ [])
    lift (ok (new_iterator (f.contract) "Transfer" feed))

  unfoldable pub watch_transfer :
      Unpack Bound Log (Transfer Log)
      → Filterer Bound
      → WatchOpts
      → List ℕ
      → List ℕ
      → Effect W (Feed × (Signal Log → Watching (Transfer Log) → Option (Watching (Transfer Log))))
  watch_transfer unpack f opts sender recipient = do
    feed ←
        source.watch_logs (f.contract) opts "Transfer"
          (map address sender ∷ map address recipient ∷ [])
    lift (ok (feed, watch_loop (transfer_type unpack) (f.contract) "Transfer"))
