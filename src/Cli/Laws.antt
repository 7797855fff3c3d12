-- ===== src/Cli/Laws.antt =====
-- When the process crashes on a channel, and when it waits for ever.
use blockless_avs_tools.Base.{
  List, [], ◌∷◌, ◌++◌, refl, ap, Bool, Bool-cases, inl, inr, true, false, none, some, ◌≡◌, arith,
  ◌||◌, ◌⊎◌,
}
use blockless_avs_tools.Cli.{
  Event, interrupted, wake, server_closed, node_ended, server_ended, Channels, started, crashed,
  returned, run_avs,
}

-- The event in which the node fails, and that in which the server does, are among these.
abbrev pub NodeFails : List Event → Type 0
NodeFails [] = ⊥
NodeFails (node_ended (some e) ∷ events) = Unit
NodeFails (_ ∷ events) = NodeFails events

abbrev pub ServerFails : List Event → Type 0
ServerFails [] = ⊥
ServerFails (server_ended e ∷ events) = Unit
ServerFails (_ ∷ events) = ServerFails events

-- What a crash from these channels needs: a second close.
SecondClose : List Event → Channels → Type 0
SecondClose events c =
    ((c.node_running ≡ true) × NodeFails events × (c.server_running ≡ true) × ServerFails events)
    ⊎ ((c.failed ≡ true) × (c.node_running ≡ true) × NodeFails events)
    ⊎ ((c.failed ≡ true) × (c.server_running ≡ true) × ServerFails events)

crash_needs :
    (events : List Event) (c : Channels) → run_avs events c ≡ crashed → SecondClose events c
unfolding run_avs SecondClose
crash_needs [] c h = absurd (ground arith)
crash_needs (interrupted ∷ events) c h = crash_needs events (record c { sig = true }) h
crash_needs (wake ∷ events) c h = crash_needs events c (ground arith)
crash_needs (server_closed ∷ events) c h =
    let later = crash_needs events (record c { server_running = false }) h in ground arith
crash_needs (node_ended none ∷ events) c h =
    let later =
      crash_needs events (record c { done = c.done || c.node_running; node_running = false }) h in
    ground arith
crash_needs (node_ended (some e) ∷ events) c h =
    let later = crash_needs events (record c { failed = true; node_running = false }) in
    let same = crash_needs events c in ground (arith, later, same)
crash_needs (server_ended e ∷ events) c h =
    let later = crash_needs events (record c { failed = true; server_running = false }) in
    let same = crash_needs events c in ground (arith, later, same)

-- In the wait of `RunAVS`, a close of the closed channel `failed`, which panics, is reached only if
-- the node was started and fails, and the HTTP server fails as well.
pub run_avs-crash_cause :
    (node_running : Bool) (events : List Event)
    → run_avs events (started node_running) ≡ crashed
    → (node_running ≡ true) × NodeFails events × ServerFails events
unfolding SecondClose
run_avs-crash_cause node_running events h =
    let second = crash_needs events (started node_running) h in ground arith

-- An interrupt, and an end of the node, with an error or without, are among these events.
abbrev pub Interrupted : List Event → Type 0
Interrupted [] = ⊥
Interrupted (interrupted ∷ events) = Unit
Interrupted (_ ∷ events) = Interrupted events

abbrev pub NodeEnds : List Event → Type 0
NodeEnds [] = ⊥
NodeEnds (node_ended e ∷ events) = Unit
NodeEnds (_ ∷ events) = NodeEnds events

-- What a `select` after these events can receive.
abbrev Ready : List Event → Channels → Type 0
Ready before c =
    ((c.sig ≡ true) ⊎ (c.done ≡ true) ⊎ (c.failed ≡ true))
    ⊎ Interrupted before
    ⊎ ((c.node_running ≡ true) × NodeEnds before)
    ⊎ ((c.server_running ≡ true) × ServerFails before)

ready_now :
    (sig done failed : Bool)
    → (sig || (done || failed)) ≡ true
    → (sig ≡ true) ⊎ (done ≡ true) ⊎ (failed ≡ true)
ready_now true done failed h = inl refl
ready_now false true failed h = inr (inl refl)
ready_now false false true h = inr (inr refl)
ready_now false false false h = absurd (ground arith)

returned_needs :
    (events : List Event) (c : Channels)
    → run_avs events c ≡ returned
    → (before after : List Event) × (events ≡ before ++ (wake ∷ after)) × Ready before c
unfolding run_avs
returned_needs [] c h = absurd (ground arith)
returned_needs (interrupted ∷ events) c h =
    let (before, after, same, ready) = returned_needs events (record c { sig = true }) h in
    (interrupted ∷ before, after, ap (λ es. interrupted ∷ es) same, ground arith)
returned_needs (wake ∷ events) c h = elim (Bool-cases (c.sig || (c.done || c.failed))) [
  | inl now ↦ ([], events, refl, inl (ready_now c.sig c.done c.failed now))
  | inr later ↦
      let rest : run_avs events c ≡ returned = ground arith in
      let (before, after, same, ready) = returned_needs events c rest in
      (wake ∷ before, after, ap (λ es. wake ∷ es) same, ready)
]
returned_needs (server_closed ∷ events) c h =
    let (before, after, same, ready) =
      returned_needs events (record c { server_running = false }) h in
    (server_closed ∷ before, after, ap (λ es. server_closed ∷ es) same, ground arith)
returned_needs (node_ended none ∷ events) c h =
    let (before, after, same, ready) =
      returned_needs events (record c { done = c.done || c.node_running; node_running = false })
        h in
    (node_ended none ∷ before, after, ap (λ es. node_ended none ∷ es) same, ground arith)
returned_needs (node_ended (some e) ∷ events) c h = elim (Bool-cases c.node_running) [
  | inl runs ↦
      let ends : run_avs events (record c { failed = true; node_running = false }) ≡ returned =
        elim (Bool-cases c.failed) [
          | inl shut ↦ absurd (ground arith)
          | inr unshut ↦ ground arith
        ] in
      let (before, after, same, ready) =
        returned_needs events (record c { failed = true; node_running = false }) ends in
      (node_ended (some e) ∷ before, after, ap (λ es. node_ended (some e) ∷ es) same, ground arith)
  | inr idle ↦
      let rest : run_avs events c ≡ returned = ground arith in
      let (before, after, same, ready) = returned_needs events c rest in
      (node_ended (some e) ∷ before, after, ap (λ es. node_ended (some e) ∷ es) same, ground arith)
]
returned_needs (server_ended e ∷ events) c h = elim (Bool-cases c.server_running) [
  | inl runs ↦
      let ends : run_avs events (record c { failed = true; server_running = false }) ≡ returned =
        elim (Bool-cases c.failed) [
          | inl shut ↦ absurd (ground arith)
          | inr unshut ↦ ground arith
        ] in
      let (before, after, same, ready) =
        returned_needs events (record c { failed = true; server_running = false }) ends in
      (server_ended e ∷ before, after, ap (λ es. server_ended e ∷ es) same, ground arith)
  | inr idle ↦
      let rest : run_avs events c ≡ returned = ground arith in
      let (before, after, same, ready) = returned_needs events c rest in
      (server_ended e ∷ before, after, ap (λ es. server_ended e ∷ es) same, ground arith)
]

-- The wait of `RunAVS` ends only at a `select` before which there was an interrupt, an end of the
-- node that was started, or a failure of the HTTP server.
pub run_avs-returned_cause :
    (node_running : Bool) (events : List Event)
    → run_avs events (started node_running) ≡ returned
    → (before after : List Event) × (events ≡ before ++ (wake ∷ after))
      × (Interrupted before ⊎ ((node_running ≡ true) × NodeEnds before) ⊎ ServerFails before)
run_avs-returned_cause node_running events h =
    let (before, after, same, ready) = returned_needs events (started node_running) h in
    (before, after, same, ground arith)
