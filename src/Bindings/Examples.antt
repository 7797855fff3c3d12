-- ===== src/Bindings/Examples.antt =====
-- The bindings over small libraries, and the theorems on them at these.
use blockless_avs_tools.Base.{
  ℕ, ◌≡◌, ◌≢◌, refl, String, [], ◌∷◌, ◌++◌, map, Option, none, some, GoError, message, ok, err,
  panicked, arith, lookup, string_eq, ◌==◌, if◌then◌else◌, inl, inr, Bool-cases, ap, subst, pos,
  nat_eq,
}
use mathlib.Core.Option.{some_inj}
use blockless_avs_tools.Bindings.{Price}
use blockless_avs_tools.Bindings.Values.{
  uint32, address, big_int, boolean, text, bytes32, addresses, price_struct, totals_struct,
  Converters, Bind,
}
use blockless_avs_tools.Bindings.Handles.{handle_of}
use blockless_avs_tools.Bindings.Abi.{type_of, AnswersAbi, ConvertsOwnTypes}
use blockless_avs_tools.Bindings.Iterator.{
  LogSource, Unpack, EventType, from_logs, from_sub, new_iterator, parse, iterate,
}
use blockless_avs_tools.Bindings.Iterator.Laws.{parse_all, iterate-parse_all}
use blockless_avs_tools.Bindings.Watch.{log_arrived, event_taken, quit, ended, watch_loop}
use blockless_avs_tools.Bindings.Watch.Laws.{Reach, start, step, Accounted, Reach-Accounted}
use blockless_avs_tools.Bindings.Avs.OracleEvents.{
  AggregatorUpdated, aggregator_updated_type, oracle_update_type, filter_oracle_update,
}
use blockless_avs_tools.Bindings.Avs.OracleEvents
use blockless_avs_tools.Bindings.Avs.Listener.{
  oracle_updates, go_event, latest_price, filter_oracle_update-latest_price,
}
use blockless_avs_tools.Bindings.Avs.Methods.{avs_abi, ask, read_aggregator}
use blockless_avs_tools.Bindings.Avs.Methods.Types.{ask-never_panics}
use blockless_avs_tools.Bindings.Avs.Chain.{go_price}
use blockless_avs_tools.Contract.{OnchainPrice, OracleUpdate, price}
use blockless_avs_tools.Contract.Replay.{run}
use blockless_avs_tools.Contract.Examples.{checker, no_prices, at_995, event_of, transactions}

-- A log is a number; 0 does not parse.
abbrev unpack : Unit {0} → String → ℕ → AggregatorUpdated ℕ × Option GoError
unpack contract event log = (
  record { previous_aggregator = log; new_aggregator = log; raw = 0 },
  if log == 0 then some (message "no topics") else none,
)

abbrev updates : EventType (Unit {0}) ℕ (AggregatorUpdated ℕ)
updates = aggregator_updated_type unpack

abbrev update_of : ℕ → AggregatorUpdated ℕ
update_of log = record { previous_aggregator = log; new_aggregator = log; raw = log }

iterate-parse_all_example :
    let run =
      iterate updates
        (map from_logs (4 ∷ 0 ∷ 5 ∷ []) ++ (from_sub none ∷ []))
        (new_iterator {Feed = ℕ} tt "AggregatorUpdated" 3) in
    let parsed = parse_all updates tt "AggregatorUpdated" none (4 ∷ 0 ∷ 5 ∷ []) in
    (run.0 ≡ map some parsed.0) × ((run.1).fail ≡ parsed.1)
iterate-parse_all_example = iterate-parse_all updates tt "AggregatorUpdated" 3 (4 ∷ 0 ∷ 5 ∷ []) none

-- One event taken, the next one on offer when the subscriber quits.
reached :
    Reach updates tt "AggregatorUpdated"
      (4 ∷ 5 ∷ [])
      (record { phase = ended none; sent = update_of 4 ∷ [] })
unfolding watch_loop parse
reached =
    step quit (step (log_arrived 5) (step event_taken (step (log_arrived 4) start refl) refl) refl)
      refl

Reach-Accounted_example :
    Accounted updates tt "AggregatorUpdated" (4 ∷ 5 ∷ []) (ended none) (update_of 4 ∷ [])
Reach-Accounted_example = Reach-Accounted updates tt "AggregatorUpdated" reached

abbrev pub converters : Converters
converters = record {
  to_uint32 = λ v. elim v [ uint32 n ↦ some n | _ ↦ none ];
  to_address = λ v. elim v [ address n ↦ some n | _ ↦ none ];
  to_big_int = λ v. elim v [ big_int n ↦ some n | _ ↦ none ];
  to_boolean = λ v. elim v [ boolean b ↦ some b | _ ↦ none ];
  to_text = λ v. elim v [ text s ↦ some s | _ ↦ none ];
  to_bytes32 = λ v. elim v [ bytes32 b ↦ some b | _ ↦ none ];
  to_addresses = λ v. elim v [ addresses a ↦ some a | _ ↦ none ];
  to_price = λ v. elim v [ price_struct p ↦ some p | _ ↦ none ];
  to_stake_totals = λ v. elim v [ totals_struct t ↦ some t | _ ↦ none ];
}

pub own : ConvertsOwnTypes converters
own = record {
  own_uint32 = λ n. refl;
  own_address = λ n. refl;
  own_big_int = λ n. refl;
  own_boolean = λ b. refl;
  own_text = λ s. refl;
  own_bytes32 = λ b. refl;
  own_addresses = λ a. refl;
  own_price = λ p. refl;
  own_stake_totals = λ t. refl;
}

-- The fields of an `OnchainPrice` in the struct of the binding.
abbrev pub onchain : Price → Option OnchainPrice
onchain p = elim (p.price) [
  | some (pos n) ↦ some (record { symbol = p.symbol; price = n; timestamp = p.timestamp })
  | _ ↦ none
]

-- It answers `aggregator` alone.
abbrev views : Bind ℕ (Unit {0}) (Unit {0}) (Unit {0}) ℕ
views = record {
  call = λ contract opts method args w.
      if method == "aggregator"
      then (ok (address 7 ∷ []), w)
      else (err (message "unknown method"), w);
  transact = λ contract opts method args w. (ok 1, w);
  transfer = λ contract opts w. (ok 1, w);
  convert_type = converters;
}

views-AnswersAbi : AnswersAbi views avs_abi
views-AnswersAbi contract opts method args out w w' signature found ran =
    elim (Bool-cases (method == "aggregator")) [
      | inl same ↦
          let named : method ≡ "aggregator" = (string_eq.beq_iff method "aggregator").0 same in
          let one : address 7 ∷ [] ≡ out = ground arith in
          let outputs : "address" ∷ [] ≡ signature.outputs =
            ap (λ s. s.outputs)
              (some_inj.0 (subst (λ m. lookup m avs_abi ≡ some signature) named found)) in
          subst (λ o. map type_of o ≡ signature.outputs) one outputs
      | inr other ↦ absurd (ground arith)
    ]

ask-never_panics_example :
    (ask views (handle_of tt).caller tt read_aggregator 0).0 ≢ panicked (message "cannot convert")
ask-never_panics_example =
    ask-never_panics views (handle_of tt).caller tt read_aggregator 0 (message "cannot convert")
      views-AnswersAbi own

-- A feed that is always granted; a log is the event itself.
abbrev granted : LogSource ℕ ℕ (Unit {0}) (Unit {0}) (Unit {0})
granted = record {
  filter_logs = λ contract opts event topics w. (ok tt, w);
  watch_logs = λ contract opts event topics w. (ok tt, w);
  unsubscribe = λ feed w. w;
}

abbrev unpack_update : Unpack ℕ OracleUpdate (OracleEvents.OracleUpdate OracleUpdate)
unpack_update contract event log = (go_event (event_of at_995) log, none)

got_filter :
    filter_oracle_update {Log = OracleUpdate} granted (handle_of {Bound = ℕ} 9).filterer tt 0
    ≡ (ok (new_iterator 9 "OracleUpdate" tt), 0)
unfolding filter_oracle_update
got_filter = refl

filter_oracle_update-latest_price_example :
    let (s', events) = run checker transactions no_prices in
    let logs = map from_logs (map (λ e. e) (oracle_updates events)) in
    latest_price "bitcoin"
      (iterate
        (oracle_update_type unpack_update)
        (logs ++ (from_sub none ∷ []))
        (new_iterator {Feed = Unit {0}} 9 "OracleUpdate" tt)).0
      (go_price (price "bitcoin" no_prices))
    ≡ go_price (price "bitcoin" s')
filter_oracle_update-latest_price_example =
    filter_oracle_update-latest_price granted unpack_update (λ e. e) (event_of at_995)
      (λ contract event. refl) checker (handle_of 9).filterer tt "bitcoin" transactions no_prices 0
      got_filter
