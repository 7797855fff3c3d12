-- ===== src/Cli/Run/Laws.antt =====
-- What `RunAVS` needs to end well.
use blockless_avs_tools.Base.{
  String, Bool, true, ◌≢◌, List, ◌∷◌, ◌++◌, Option, none, some, Result, Result-cases, ok, GoError,
  Outcome, returned, panicked, exited, ◌≡◌, refl, sym, ◌∙◌, ◌⊎◌, arith, inl, inr, ap,
}
use blockless_avs_tools.Node.P2p.{P2pLib}
use blockless_avs_tools.Cli.{Event, wake, started, run_avs}
use blockless_avs_tools.Cli.Laws.{Interrupted, NodeEnds, ServerFails, run_avs-returned_cause}
use blockless_avs_tools.Cli
use blockless_avs_tools.Cli.Run.{
  BlocklessConfig, Pebble, ended, and_panic, open_database, close_databases, boot, wait_and_close,
  run_avs_command,
}

module _ {W Db Addr Peer Host Node : Type 0} (pebble : Pebble W Db)
    (p2p_lib : Option Db → Option Db → P2pLib W Addr Peer Host Node)
    (head_node_label : String) where
  Status-cases : (s : Cli.Status) → (s ≡ Cli.returned) ⊎ (s ≡ Cli.waiting) ⊎ (s ≡ Cli.crashed)
  Status-cases Cli.returned = inl refl
  Status-cases Cli.waiting = inr (inl refl)
  Status-cases Cli.crashed = inr (inr refl)

  and_panic-eq-returned :
      (first second : Outcome (Result (Unit {0}))) {r : Result (Unit {0})}
      → and_panic first second ≡ returned r
      → ((a : Result (Unit {0})) × (first ≡ returned a))
        × ((b : Result (Unit {0})) × (second ≡ returned b))
  and_panic-eq-returned (returned a) (returned b) h = ((a, refl), (b, refl))
  and_panic-eq-returned (returned a) (panicked e) h = absurd (ground arith)
  and_panic-eq-returned (returned a) (exited s) h = absurd (ground arith)
  and_panic-eq-returned (panicked e) (returned b) h = absurd (ground arith)
  and_panic-eq-returned (panicked e) (panicked f) h = absurd (ground arith)
  and_panic-eq-returned (panicked e) (exited s) h = absurd (ground arith)
  and_panic-eq-returned (exited s) (returned b) h = absurd (ground arith)
  and_panic-eq-returned (exited s) (panicked e) h = absurd (ground arith)
  and_panic-eq-returned (exited s) (exited t) h = absurd (ground arith)

  open_database-eq-some :
      (path : String) (w : W) {db : Db}
      → (open_database pebble p2p_lib head_node_label path w).0 ≡ some db
      → pebble.open_db path w ≡ (ok db, (open_database pebble p2p_lib head_node_label path w).1)
  unfolding open_database
  open_database-eq-some path w h = elim (Result-cases (pebble.open_db path w).0) [
    | inl (_, good) ↦ ground arith
    | inr (_, bad) ↦ ground arith
  ]

  closed-Opened :
      (pdb fdb : Option Db) (w : W) {r : Result (Unit {0})} {w' : W}
      → ((w : W) → (e : GoError) × ((pebble.close_db none w).0 ≡ panicked e))
      → close_databases pebble p2p_lib head_node_label pdb fdb w ≡ (returned r, w')
      → (p : Db) × (f : Db) × (pdb ≡ some p)
        × (fdb ≡ some f)
        × (a : Result (Unit {0})) × (b : Result (Unit {0})) × (w₁ : W) × (pebble.close_db (some f) w
            ≡ (returned a, w₁))
        × (pebble.close_db (some p) w₁ ≡ (returned b, w'))
  unfolding close_databases
  closed-Opened (some p) (some f) w nil h =
      let first = pebble.close_db (some f) w in
      let second = pebble.close_db (some p) (first.1) in
      let ((a, first_fine), (b, second_fine)) =
        and_panic-eq-returned first.0 second.0 (ap (λ x. x.0) h) in
      (p, f, refl, refl, a, b, first.1, ground arith, ground arith)
  closed-Opened pdb none w nil h =
      let (_, bad) = nil w in
      let first = pebble.close_db none w in
      let second = pebble.close_db pdb (first.1) in
      let ((a, fine), _) = and_panic-eq-returned first.0 second.0 (ap (λ x. x.0) h) in
      absurd (ground arith)
  closed-Opened none (some f) w nil h =
      let first = pebble.close_db (some f) w in
      let second = pebble.close_db none (first.1) in
      let (_, bad) = nil (first.1) in
      let (_, (b, fine)) = and_panic-eq-returned first.0 second.0 (ap (λ x. x.0) h) in
      absurd (ground arith)

  -- The wait that ends well, and the deferred calls after it.
  wait_and_close-ended :
      (events : List Event) (pdb fdb : Option Db) (running : Bool) (w : W) {r : Result (Unit {0})}
      {w' : W}
      → wait_and_close pebble p2p_lib head_node_label events pdb fdb running w
        ≡ (ended (returned r), w')
      → (run_avs events (started running) ≡ Cli.returned)
        × (close_databases pebble p2p_lib head_node_label pdb fdb w ≡ (returned r, w'))
  unfolding wait_and_close
  wait_and_close-ended events pdb fdb running w h =
      elim (Status-cases (run_avs events (started running))) [
        | inl back ↦ (back, ground arith)
        | inr (inl waits) ↦ absurd (ground arith)
        | inr (inr crash) ↦ absurd (ground arith)
      ]

  -- A panic of the boot is not lost in the deferred calls.
  and_panic-never_returned :
      (e : GoError) (second : Outcome (Result (Unit {0}))) {r : Result (Unit {0})}
      → and_panic (panicked e) second ≢ returned r
  and_panic-never_returned e (returned _) h = ground arith
  and_panic-never_returned e (panicked _) h = ground arith
  and_panic-never_returned e (exited _) h = ground arith

  Started-cases :
      (o : Outcome Bool)
      → ((b : Bool) × (o ≡ returned b))
        ⊎ ((e : GoError) × (o ≡ panicked e))
        ⊎ ((s : String) × (o ≡ exited s))
  Started-cases (returned b) = inl (b, refl)
  Started-cases (panicked e) = inr (inl (e, refl))
  Started-cases (exited s) = inr (inr (s, refl))

  -- A run that ends well was booted without a panic.
  booted :
      (c : BlocklessConfig) (events : List Event) (pdb fdb : Option Db) (w w₁ w₂ : W)
      {r : Result (Unit {0})} {w' : W}
      → open_database pebble p2p_lib head_node_label c.peer_db w ≡ (pdb, w₁)
      → open_database pebble p2p_lib head_node_label c.function_db w₁ ≡ (fdb, w₂)
      → run_avs_command pebble p2p_lib head_node_label (some c) events w ≡ (ended (returned r), w')
      → (running : Bool) × (w₃ : W) × (boot pebble p2p_lib head_node_label c pdb fdb w₂
          ≡ (returned running, w₃))
        × (wait_and_close pebble p2p_lib head_node_label events pdb fdb running w₃
            ≡ (ended (returned r), w'))
  unfolding run_avs_command
  booted c events pdb fdb w w₁ w₂ {r} {w'} opened_p opened_f h =
      let (code, w₃) = boot pebble p2p_lib head_node_label c pdb fdb w₂ in
      elim (Started-cases code) [
        | inl (running, fine) ↦ (running, w₃, ap (λ o. (o, w₃)) fine, ground arith)
        | inr (inl (e, p)) ↦
            let second = (close_databases pebble p2p_lib head_node_label pdb fdb w₃).0 in
            let ends : and_panic (panicked e) second ≡ returned r = ground arith in
            absurd (and_panic-never_returned e second ends)
        | inr (inr (_, p)) ↦ absurd (ground arith)
      ]

  nothing_ended :
      (events : List Event) (w : W) {r : Result (Unit {0})} {w' : W}
      → run_avs_command pebble p2p_lib head_node_label none events w ≢ (ended (returned r), w')
  unfolding run_avs_command
  nothing_ended events w h = ground arith

  -- `RunAVS` ends without a panic only if the configuration is set, both databases could be opened
  -- (an error is only logged at first), `RunP2P` returned, and a `select` was run after an interrupt,
  -- an end of the node that was started or a failure of the HTTP server; both databases are then
  -- closed, that of the functions first. This takes `Close` of the nil pointer to panic.
  pub run_avs_command-ends_well :
      (config : Option BlocklessConfig) (events : List Event) (w : W) {r : Result (Unit {0})}
      {w' : W}
      → ((w : W) → (e : GoError) × ((pebble.close_db none w).0 ≡ panicked e))
      → run_avs_command pebble p2p_lib head_node_label config events w ≡ (ended (returned r), w')
      → (c : BlocklessConfig) × (pdb : Db) × (fdb : Db) × (w₁ : W) × (w₂ : W) × (running : Bool)
        × (w₃ : W) × (a : Result (Unit {0})) × (b : Result (Unit {0})) × (w₄ : W) × (before : List
            Event)
        × (after : List Event) × (config ≡ some c)
        × (pebble.open_db c.peer_db w ≡ (ok pdb, w₁))
        × (pebble.open_db c.function_db w₁ ≡ (ok fdb, w₂))
        × (boot pebble p2p_lib head_node_label c (some pdb) (some fdb) w₂ ≡ (returned running, w₃))
        × (events ≡ before ++ (wake ∷ after))
        × (Interrupted before ⊎ ((running ≡ true) × NodeEnds before) ⊎ ServerFails before)
        × (pebble.close_db (some fdb) w₃ ≡ (returned a, w₄))
        × (pebble.close_db (some pdb) w₄ ≡ (returned b, w'))
  run_avs_command-ends_well none events w nil h = absurd (nothing_ended events w h)
  run_avs_command-ends_well (some c) events w nil h =
      let (pdb, w₁) = open_database pebble p2p_lib head_node_label c.peer_db w in
      let (fdb, w₂) = open_database pebble p2p_lib head_node_label c.function_db w₁ in
      let (running, w₃, booted_so, waited) = booted c events pdb fdb w w₁ w₂ refl refl h in
      let (woken, closed) = wait_and_close-ended events pdb fdb running w₃ waited in
      let (p, f, is_p, is_f, a, b, w₄, closed_f, closed_p) = closed-Opened pdb fdb w₃ nil closed in
      let (before, after, split, cause) = run_avs-returned_cause running events woken in
      let run = boot pebble p2p_lib head_node_label c in
      let same : run (some p) (some f) w₂ ≡ run pdb fdb w₂ =
        ap (λ x. run x (some f) w₂) (sym is_p) ∙ ap (λ y. run pdb y w₂) (sym is_f) in
      (
        c,
        p,
        f,
        w₁,
        w₂,
        running,
        w₃,
        a,
        b,
        w₄,
        before,
        after,
        refl,
        open_database-eq-some c.peer_db w is_p,
        open_database-eq-some c.function_db w₁ is_f,
        same ∙ booted_so,
        split,
        cause,
        closed_f,
        closed_p,
      )
