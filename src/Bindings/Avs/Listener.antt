-- ===== src/Bindings/Avs/Listener.antt =====
-- A program that filters the contract's OracleUpdate logs through the binding and keeps the latest
-- price of a symbol.
use blockless_avs_tools.Base.{
  ◌≡◌, refl, ap, sym, ◌∙◌, String, List, [], ◌∷◌, ◌++◌, map, Option, none, some, ok, arith,
  Result-cases, subst, inl, inr, ◌==◌, string_eq, if◌then◌else◌,
}
use blockless_avs_tools.Bindings.{Price}
use blockless_avs_tools.Bindings.Handles.{Filterer}
use blockless_avs_tools.Bindings.Iterator.{
  LogSource, Unpack, Iterator, from_logs, from_sub, parse, new_iterator, iterate,
}
use blockless_avs_tools.Bindings.Iterator.Laws.{parse_all, iterate-parse_all}
use blockless_avs_tools.Bindings.Avs.OracleEvents
use blockless_avs_tools.Bindings.Avs.OracleEvents.{oracle_update_type, filter_oracle_update}
use blockless_avs_tools.Bindings.Avs.Chain.{go_price}
use blockless_avs_tools.Contract.{OnchainPrice, Storage, OracleUpdate, Checker, price}
use blockless_avs_tools.Contract.Replay.{
  Transaction, Event, oracle_update, aggregator_updated, run, replay, run-replay,
}

-- The logs of one event, which are those that a filter for it gets.
abbrev pub oracle_updates : List Event → List OracleUpdate
oracle_updates [] = []
oracle_updates (oracle_update event ∷ events) = event ∷ oracle_updates events
oracle_updates (aggregator_updated _ ∷ events) = oracle_updates events

-- The struct that the binding has for an event, with its raw log.
abbrev pub go_event : {Log : Type 0} → Log → OracleUpdate → OracleEvents.OracleUpdate Log
go_event raw event = record {
  price_response = go_price event.price_response;
  oracle_price_response_metadata = record {
    block_number = event.block_number;
    hash_of_non_signers = event.hash_of_non_signers;
  };
  raw = raw;
}

-- The price of the last event for the symbol, or the one known before.
abbrev pub latest_price :
    {Log : Type 0} → String → List (Option (OracleEvents.OracleUpdate Log)) → Price → Price
latest_price symbol [] known = known
latest_price symbol (none ∷ events) known = latest_price symbol events known
latest_price symbol (some event ∷ events) known =
    latest_price symbol events
      (if event.price_response.symbol == symbol then event.price_response else known)

module _ {W Bound FilterOpts WatchOpts Feed Log : Type 0}
    (source : LogSource W Bound FilterOpts WatchOpts Feed)
    (unpack : Unpack Bound Log (OracleEvents.OracleUpdate Log)) (log_of : OracleUpdate → Log)
    (zero_log : Log)
    -- `UnpackLog` reads the event back from the log that the contract emitted for it
    (unpacks : (contract : Bound) (event : OracleUpdate)
      → unpack contract "OracleUpdate" (log_of event) ≡ (go_event zero_log event, none))
    (checker : Checker) where
  parse_all-emitted :
      (contract : Bound) (events : List OracleUpdate)
      → (parse_all (oracle_update_type unpack) contract "OracleUpdate" none (map log_of events)).0
        ≡ map (λ event. go_event (log_of event) event) events
  unfolding parse
  parse_all-emitted contract [] = refl
  parse_all-emitted contract (event ∷ events) =
      ground (arith, unpacks contract event, parse_all-emitted contract events)

  latest_price-replay :
      (symbol : String) (events : List Event) (known : OnchainPrice)
      → latest_price symbol
          (map some (map (λ event. go_event (log_of event) event) (oracle_updates events)))
          (go_price known)
        ≡ go_price (replay symbol events known)
  unfolding replay
  latest_price-replay symbol [] known = refl
  latest_price-replay symbol (aggregator_updated _ ∷ events) known =
      latest_price-replay symbol events known
  latest_price-replay symbol (oracle_update event ∷ events) known = ground (
    arith,
    latest_price-replay symbol events event.price_response,
    latest_price-replay symbol events known,
  )

  -- A filter that is returned is a new iterator.
  filter_oracle_update-new :
      (f : Filterer Bound) (opts : FilterOpts) (w : W) {w' : W}
      {it : Iterator Bound Feed (OracleEvents.OracleUpdate Log)}
      → filter_oracle_update source f opts w ≡ (ok it, w')
      → (feed : Feed) × (new_iterator f.contract "OracleUpdate" feed ≡ it)
  unfolding filter_oracle_update
  filter_oracle_update-new f opts w h =
      elim (Result-cases (source.filter_logs f.contract opts "OracleUpdate" [] w).0) [
        | inl (feed, good) ↦ (feed, ground arith)
        | inr (_, bad) ↦ absurd (ground arith)
      ]

  -- After any transactions, a loop over FilterOracleUpdate() that gets all the logs that they emitted
  -- and keeps the price of the last event for a symbol ends with the contract's price of the symbol,
  -- if it started with it. This rests on UnpackLog to read back the events that were emitted.
  pub filter_oracle_update-latest_price :
      (f : Filterer Bound) (opts : FilterOpts) (symbol : String) (txs : List Transaction)
      (s : Storage) (w : W) {w' : W} {it : Iterator Bound Feed (OracleEvents.OracleUpdate Log)}
      → filter_oracle_update source f opts w ≡ (ok it, w')
      → let (s', events) = run checker txs s in
        let logs = map from_logs (map log_of (oracle_updates events)) in
        latest_price symbol
          (iterate (oracle_update_type unpack) (logs ++ (from_sub none ∷ [])) it).0
          (go_price (price symbol s))
        ≡ go_price (price symbol s')
  filter_oracle_update-latest_price f opts symbol txs s w {it = it} h =
      let (feed, same) = filter_oracle_update-new f opts w h in
      let ty = oracle_update_type unpack in
      let (s', events) = run checker txs s in
      let logs = map log_of (oracle_updates events) in
      let known = go_price (price symbol s) in
      let used = (iterate-parse_all ty f.contract "OracleUpdate" feed logs none).0 in
      let parsed = parse_all-emitted f.contract (oracle_updates events) in
      let seen = ap (λ es. latest_price symbol es known) (used ∙ ap (map some) parsed) in
      subst
        (λ i.
          latest_price symbol (iterate ty (map from_logs logs ++ (from_sub none ∷ [])) i).0 known
          ≡ go_price (price symbol s'))
        same
        (seen
          ∙ latest_price-replay symbol events (price symbol s)
          ∙ ap go_price (sym (run-replay checker symbol txs s).0))
