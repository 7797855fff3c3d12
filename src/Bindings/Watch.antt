-- ===== src/Bindings/Watch.antt =====
-- The subscriptions that a generated `WatchX` returns, for any event of a contract: the two nested
-- selects of their loop, one signal at a time.
pub mod Laws
use blockless_avs_tools.Base.{String, List, [], ◌∷◌, ◌++◌, Option, none, some, GoError, ok, err}
use blockless_avs_tools.Bindings.Iterator.{EventType, parse}

-- What a select can take.
pub data Signal (Log : Type 0) : Type 0 where
  log_arrived : Log → Signal Log
  event_taken quit : Signal Log
  sub_error : Option GoError → Signal Log

-- Where the loop stands: at the outer select, at the inner one with an event for the sink, or
-- returned, after which the deferred `sub.Unsubscribe` has run.
pub data Phase (E : Type 0) : Type 0 where
  waiting : Phase E
  sending : E → Phase E
  ended : Option GoError → Phase E

-- `sent` is what the sink has taken.
pub record Watching (E : Type 0) : Type 0 where
  pub phase : Phase E
  pub sent : List E

abbrev pub new_watching : {E : Type 0} → Watching E
new_watching = record { phase = waiting; sent = [] }

module _ {Bound Log E : Type 0} (ty : EventType Bound Log E) (contract : Bound)
    (event : String) where
  -- A select has taken the signal; none where it has no such case.
  unfoldable pub watch_loop : Signal Log → Watching E → Option (Watching E)
  unfolding parse
  watch_loop signal s = elim (s.phase) [
    | waiting ↦ elim signal [
      | log_arrived log ↦ elim (parse ty contract event log) [
        | ok e ↦ some (record s { phase = sending e })
        | err e ↦ some (record s { phase = ended (some e) })
      ]
      | event_taken ↦ none
      | quit ↦ some (record s { phase = ended none })
      | sub_error e ↦ some (record s { phase = ended e })
    ]
    | sending e ↦ elim signal [
      | log_arrived _ ↦ none
      | event_taken ↦ some (record { phase = waiting; sent = s.sent ++ (e ∷ []) })
      | quit ↦ some (record s { phase = ended none })
      | sub_error failure ↦ some (record s { phase = ended failure })
    ]
    | ended _ ↦ none
  ]
