-- ===== src/Bindings/Iterator.antt =====
-- The iterators that a generated `FilterX` returns, and `ParseX`, for any event of a contract.
pub mod Laws
use blockless_avs_tools.Base.{
  String, List, [], ◌∷◌, Bool, true, false, Option, none, some, GoError, Result, ok, err,
  if◌then◌else◌,
}
use blockless_avs_tools.Base.Effects.{Effect}
use blockless_avs_tools.Bindings.Values.{Any}

-- `FilterLogs` and `WatchLogs` of a `bind.BoundContract`. A feed is the channel of logs with its
-- subscription.
pub record LogSource (W Bound FilterOpts WatchOpts Feed : Type 0) : Type 0 where
  pub filter_logs : Bound → FilterOpts → String → List (List Any) → Effect W Feed
  pub watch_logs : Bound → WatchOpts → String → List (List Any) → Effect W Feed
  pub unsubscribe : Feed → W → W

-- `UnpackLog` into a new struct of the event: what it filled in, also where it fails.
abbrev pub Unpack : Type 0 → Type 0 → Type 0 → Type 0
Unpack Bound Log E = Bound → String → Log → E × Option GoError

-- What the binding does with a struct of an event: to unpack a log into it, and to set its `Raw`.
pub record EventType (Bound Log E : Type 0) : Type 0 where
  pub unpack_log : Unpack Bound Log E
  pub set_raw : Log → E → E

pub record Iterator (Bound Feed E : Type 0) : Type 0 where
  pub event_struct : Option E
  pub contract : Bound
  pub event : String
  pub feed : Feed
  pub done : Bool
  pub fail : Option GoError

-- What the select of `Next` takes.
pub data Selected (Log : Type 0) : Type 0 where
  from_logs : Log → Selected Log
  from_sub : Option GoError → Selected Log

-- `ParseX`.
unfoldable pub parse :
    {Bound Log E : Type 0} → EventType Bound Log E → Bound → String → Log → Result E
parse ty contract event log =
    let unpacked = ty.unpack_log contract event log in
    elim (unpacked.1) [ some e ↦ err e | none ↦ ok (ty.set_raw log unpacked.0) ]

-- `&Iterator{contract: contract, event: event, logs: logs, sub: sub}`.
abbrev pub new_iterator : {Bound Feed E : Type 0} → Bound → String → Feed → Iterator Bound Feed E
new_iterator contract event feed = record {
  event_struct = none;
  contract = contract;
  event = event;
  feed = feed;
  done = false;
  fail = none;
}

-- `Close`, which ends the subscription.
unfoldable pub close :
    {W Bound FilterOpts WatchOpts Feed E : Type 0}
    → LogSource W Bound FilterOpts WatchOpts Feed
    → Iterator Bound Feed E
    → Effect W (Unit {0})
close source it w = (ok tt, source.unsubscribe (it.feed) w)

module _ {Bound Feed Log E : Type 0} (ty : EventType Bound Log E) where
  -- A log has been received.
  unfoldable pub receive : Log → Iterator Bound Feed E → Bool × Iterator Bound Feed E
  receive log it =
      let unpacked = ty.unpack_log it.contract it.event log in
      elim (unpacked.1) [
        | some e ↦ (false, record it { event_struct = some (unpacked.0); fail = some e })
        | none ↦ (true, record it { event_struct = some (ty.set_raw log unpacked.0) })
      ]

  -- `Next` of an iterator that is done: `available` is the log that can be received at once.
  unfoldable pub next_done : Option Log → Iterator Bound Feed E → Bool × Iterator Bound Feed E
  unfolding receive
  next_done available it = elim (it.fail) [
    | some _ ↦ (false, it)
    | none ↦ elim available [ some log ↦ receive log it | none ↦ (false, it) ]
  ]

  -- `Next`.
  unfoldable pub next :
      Selected Log → Option Log → Iterator Bound Feed E → Bool × Iterator Bound Feed E
  unfolding receive next_done
  next selected available it = elim (it.fail) [
    | some _ ↦ (false, it)
    | none ↦ if it.done then next_done available it else elim selected [
      | from_logs log ↦ receive log it
      | from_sub e ↦ next_done available (record it { done = true; fail = e })
    ]
  ]

  -- `for it.Next() { use(it.Event) }`: the events that are used, and the iterator after the loop. No
  -- log is left in the channel when the subscription has ended, as the channel has no buffer.
  unfoldable pub iterate :
      List (Selected Log) → Iterator Bound Feed E → List (Option E) × Iterator Bound Feed E
  unfolding next
  iterate [] it = ([], it)
  iterate (selected ∷ later) it =
      let step = next selected none it in
      let rest = iterate later (step.1) in
      if step.0 then ((step.1).event_struct ∷ rest.0, rest.1) else ([], step.1)
