-- ===== src/Bindings/Watch/Laws.antt =====
-- What a subscription has sent to its sink, in every reachable state of its loop.
use blockless_avs_tools.Base.{
  ◌≤◌, ◌≡◌, refl, String, List, [], ◌∷◌, ◌++◌, Option, none, some, GoError, arith, length, ◌⊎◌, inl,
  inr, Result-cases, ok, err, subst,
}
use mathlib.Core.Option.{some_inj}
use mathlib.Core.List.{append-nil}
use blockless_avs_tools.Bindings.Iterator.{EventType, parse}
use blockless_avs_tools.Bindings.Iterator.Laws.{parse_all}
use blockless_avs_tools.Bindings.Watch.{
  Signal, log_arrived, event_taken, quit, sub_error, Phase, waiting, sending, ended, Watching,
  new_watching, watch_loop,
}

-- The log that a signal takes from the channel.
abbrev pub received : {Log : Type 0} → Signal Log → List Log
received (log_arrived log) = log ∷ []
received _ = []

-- The states after the selects took some signals, with the logs received so far.
pub data Reach {Bound Log E : Type 0} (ty : EventType Bound Log E) (contract : Bound)
    (event : String) : List Log → Watching E → Type 0 where
  start : Reach ty contract event [] new_watching
  step :
      {logs : List Log} {s s' : Watching E} (signal : Signal Log)
      → Reach ty contract event logs s
      → watch_loop ty contract event signal s ≡ some s'
      → Reach ty contract event (logs ++ received signal) s'

-- What is parsed and not sent: nothing at the outer select, the event at the inner one, and at most
-- one event when the loop has returned.
abbrev pub Unsent : {E : Type 0} → Phase E → List E → Type 0
Unsent waiting lost = lost ≡ []
Unsent (sending e) lost = lost ≡ e ∷ []
Unsent (ended _) lost = length lost ≤ 1

abbrev pub Agrees : {E : Type 0} → Phase E → Option GoError → Type 0
Agrees waiting failure = failure ≡ none
Agrees (sending _) failure = failure ≡ none
Agrees (ended last) failure = (failure ≡ none) ⊎ (failure ≡ last)

module _ {Bound Log E : Type 0} (ty : EventType Bound Log E) (contract : Bound)
    (event : String) where
  abbrev pub Accounted : List Log → Phase E → List E → Type 0
  Accounted logs phase sent =
      let parsed = parse_all ty contract event none logs in
      (lost : List E) × (sent ++ lost ≡ parsed.0) × Unsent phase lost × Agrees phase parsed.1

  parse_all-append_ok :
      (logs : List Log) (log : Log) {e : E}
      → (parse_all ty contract event none logs).1 ≡ none
      → parse ty contract event log ≡ ok e
      → let parsed = parse_all ty contract event none (logs ++ (log ∷ [])) in
        (parsed.0 ≡ (parse_all ty contract event none logs).0 ++ (e ∷ [])) × (parsed.1 ≡ none)
  parse_all-append_ok [] log fine parses = ground arith
  parse_all-append_ok (first ∷ logs) log {e} fine parses =
      elim (Result-cases (parse ty contract event first)) [
        | inl (_, good) ↦
            let later = parse_all-append_ok logs log {e = e} (ground arith) parses in
            ground (arith, later)
        | inr (_, bad) ↦ ground arith
      ]

  parse_all-append_err :
      (logs : List Log) (log : Log) {failure : GoError}
      → (parse_all ty contract event none logs).1 ≡ none
      → parse ty contract event log ≡ err failure
      → let parsed = parse_all ty contract event none (logs ++ (log ∷ [])) in
        (parsed.0 ≡ (parse_all ty contract event none logs).0) × (parsed.1 ≡ some failure)
  parse_all-append_err [] log fine fails = ground arith
  parse_all-append_err (first ∷ logs) log {failure} fine fails =
      elim (Result-cases (parse ty contract event first)) [
        | inl (_, good) ↦
            let later = parse_all-append_err logs log {failure = failure} (ground arith) fails in
            ground (arith, later)
        | inr (_, bad) ↦ ground arith
      ]

  Accounted-log :
      (logs : List Log) (log : Log) (sent : List E) {s' : Watching E}
      → Accounted logs waiting sent
      → watch_loop ty contract event (log_arrived log) (record { phase = waiting; sent = sent })
        ≡ some s'
      → Accounted (logs ++ (log ∷ [])) s'.phase s'.sent
  unfolding watch_loop
  Accounted-log logs log sent {s'} (lost, split, unsent, agrees) h =
      elim (Result-cases (parse ty contract event log)) [
        | inl (e, parses) ↦
            let parsed = parse_all-append_ok logs log agrees parses in
            let next : Watching E = record { phase = sending e; sent = sent } in
            let same : next ≡ s' = ground arith in
            subst (λ s. Accounted (logs ++ (log ∷ [])) s.phase s.sent) same
              (e ∷ [], ground (arith, append-nil sent), refl, parsed.1)
        | inr (e, fails) ↦
            let parsed = parse_all-append_err logs log agrees fails in
            let next : Watching E = record { phase = ended (some e); sent = sent } in
            let same : next ≡ s' = ground arith in
            subst (λ s. Accounted (logs ++ (log ∷ [])) s.phase s.sent) same
              ([], ground (arith, append-nil sent), omega arith, inr parsed.1)
      ]

  -- A signal other than a log.
  Accounted-signal :
      (logs : List Log) (signal : Signal Log) (phase : Phase E) (sent : List E) {s' : Watching E}
      → Accounted logs phase sent
      → received signal ≡ []
      → watch_loop ty contract event signal (record { phase = phase; sent = sent }) ≡ some s'
      → Accounted logs s'.phase s'.sent
  unfolding watch_loop
  Accounted-signal logs (log_arrived log) phase sent a none_received h = absurd (ground arith)
  Accounted-signal logs quit waiting sent (lost, split, unsent, agrees) none_received h =
      subst (λ s. Accounted logs s.phase s.sent) (some_inj.0 h)
        (lost, split, rw unsent (omega arith), inl agrees)
  Accounted-signal logs (sub_error e) waiting sent (lost, split, unsent, agrees) none_received h =
      subst (λ s. Accounted logs s.phase s.sent) (some_inj.0 h)
        (lost, split, rw unsent (omega arith), inl agrees)
  Accounted-signal logs quit (sending e) sent (lost, split, unsent, agrees) none_received h =
      subst (λ s. Accounted logs s.phase s.sent) (some_inj.0 h)
        (lost, split, rw unsent (omega arith), inl agrees)
  Accounted-signal logs (sub_error f) (sending e) sent (lost, split, unsent, agrees) none_received
        h =
      subst (λ s. Accounted logs s.phase s.sent) (some_inj.0 h)
        (lost, split, rw unsent (omega arith), inl agrees)
  Accounted-signal logs event_taken (sending e) sent (lost, split, unsent, agrees) none_received h =
      subst (λ s. Accounted logs s.phase s.sent) (some_inj.0 h)
        ([], ground (arith, append-nil (sent ++ (e ∷ []))), refl, agrees)
  Accounted-signal logs event_taken waiting sent a none_received h = absurd (ground arith)
  Accounted-signal logs _ (ended _) sent a none_received h = absurd (ground arith)

  Accounted-step :
      (logs : List Log) (signal : Signal Log) (phase : Phase E) (sent : List E) {s' : Watching E}
      → Accounted logs phase sent
      → watch_loop ty contract event signal (record { phase = phase; sent = sent }) ≡ some s'
      → Accounted (logs ++ received signal) s'.phase s'.sent
  unfolding watch_loop
  Accounted-step logs (log_arrived log) waiting sent a h = Accounted-log logs log sent a h
  Accounted-step logs (log_arrived log) (sending _) sent a h = absurd (ground arith)
  Accounted-step logs (log_arrived log) (ended _) sent a h = absurd (ground arith)
  Accounted-step logs event_taken phase sent a h =
      rw append-nil (Accounted-signal logs event_taken phase sent a refl h)
  Accounted-step logs quit phase sent a h =
      rw append-nil (Accounted-signal logs quit phase sent a refl h)
  Accounted-step logs (sub_error e) phase sent a h =
      rw append-nil (Accounted-signal logs (sub_error e) phase sent a refl h)

  -- In every reachable state of the loop of a subscription the sink has taken, in order and once
  -- each, the events of the logs that were received up to the first that does not parse. The only
  -- event it may miss is the one on offer, or, when the loop has returned, one that was on offer
  -- then. While the loop runs every log has parsed, and if one has not, it returned that error.
  pub Reach-Accounted :
      {logs : List Log} {s : Watching E}
      → Reach ty contract event logs s
      → Accounted logs s.phase s.sent
  Reach-Accounted start = ([], refl, refl, refl)
  Reach-Accounted (step {logs} {s} {s'} signal before h) =
      Accounted-step logs signal s.phase s.sent (Reach-Accounted before) h
