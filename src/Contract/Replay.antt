-- ===== src/Contract/Replay.antt =====
-- Any sequence of transactions, with those that revert, and the events that it emits.
use blockless_avs_tools.Base.{
  ℕ, ◌≡◌, refl, ap, sym, ◌∙◌, ◌⊎◌, String, List, [], ◌∷◌, ◌++◌, arith, inl, inr, ◌==◌, string_eq,
  if◌then◌else◌,
}
use blockless_avs_tools.Bindings.{OracleRequest, NonSignerStakesAndSignature}
use blockless_avs_tools.Contract.{
  OnchainPrice, Tx, Revert, done, reverted, Storage, Env, OracleUpdate, AggregatorUpdated, Checker,
  price, set_aggregator, freeze_operator, update_oracle_price,
}
use blockless_avs_tools.Contract.Acceptance.{update_oracle_price_inv, update_oracle_price_accepts}
use blockless_avs_tools.Contract.Update.{price-update_oracle_price}

-- A transaction to the contract, with its sender and its block.
pub data Transaction : Type 0 where
  update : Env → OracleRequest → OnchainPrice → NonSignerStakesAndSignature → Transaction
  new_aggregator : Env → ℕ → Transaction
  freeze : Env → ℕ → Transaction

-- What the contract emits.
pub data Event : Type 0 where
  oracle_update : OracleUpdate → Event
  aggregator_updated : AggregatorUpdated → Event

-- The storage after a transaction and what it emits; a revert changes nothing.
abbrev pub emitting :
    {E : Type 0} → (E → List Event) → Tx (Storage × E) → Storage → Storage × List Event
emitting events (done r) s = (r.0, events r.1)
emitting events (reverted _) s = (s, [])

abbrev pub silent : Tx Storage → Storage → Storage × List Event
silent (done s') s = (s', [])
silent (reverted _) s = (s, [])

-- What a listener knows of a symbol: the price of the last event for it, or what it knew before.
unfoldable pub replay : String → List Event → OnchainPrice → OnchainPrice
replay symbol [] known = known
replay symbol (oracle_update event ∷ events) known =
    replay symbol events
      (if event.price_response.symbol == symbol then event.price_response else known)
replay symbol (aggregator_updated _ ∷ events) known = replay symbol events known

-- And of the aggregator.
unfoldable pub replay_aggregator : List Event → ℕ → ℕ
replay_aggregator [] known = known
replay_aggregator (oracle_update _ ∷ events) known = replay_aggregator events known
replay_aggregator (aggregator_updated event ∷ events) known =
    replay_aggregator events event.new_aggregator

pub Tx-cases :
    {A : Type 0} (t : Tx A) → ((a : A) × (t ≡ done a)) ⊎ ((r : Revert) × (t ≡ reverted r))
Tx-cases (done a) = inl (a, refl)
Tx-cases (reverted r) = inr (r, refl)

replay-append :
    (symbol : String) (first rest : List Event) (known : OnchainPrice)
    → replay symbol (first ++ rest) known ≡ replay symbol rest (replay symbol first known)
unfolding replay
replay-append symbol [] rest known = refl
replay-append symbol (oracle_update event ∷ first) rest known = replay-append symbol first rest _
replay-append symbol (aggregator_updated _ ∷ first) rest known = replay-append symbol first rest _

replay_aggregator-append :
    (first rest : List Event) (known : ℕ)
    → replay_aggregator (first ++ rest) known
      ≡ replay_aggregator rest (replay_aggregator first known)
unfolding replay_aggregator
replay_aggregator-append [] rest known = refl
replay_aggregator-append (oracle_update _ ∷ first) rest known =
    replay_aggregator-append first rest _
replay_aggregator-append (aggregator_updated _ ∷ first) rest known =
    replay_aggregator-append first rest _

module _ (checker : Checker) where
  unfoldable pub execute : Transaction → Storage → Storage × List Event
  execute (update env req p stakes) s =
      emitting (λ e. oracle_update e ∷ []) (update_oracle_price checker env req p stakes s) s
  execute (new_aggregator env a) s =
      emitting (λ e. aggregator_updated e ∷ []) (set_aggregator env a s) s
  execute (freeze env a) s = silent (freeze_operator env a s) s

  -- The transactions one after the other, with all their events.
  unfoldable pub run : List Transaction → Storage → Storage × List Event
  run [] s = (s, [])
  run (tx ∷ txs) s =
      let first = execute tx s in let rest = run txs (first.0) in (rest.0, first.1 ++ rest.1)

  -- A successful update announces the price that it stores.
  update_oracle_price-event :
      (env : Env) (req : OracleRequest) (p : OnchainPrice) (stakes : NonSignerStakesAndSignature)
      (s : Storage) {s' : Storage} {event : OracleUpdate}
      → update_oracle_price checker env req p stakes s ≡ done (s', event)
      → event.price_response ≡ p
  update_oracle_price-event env req p stakes s h =
      let (authorized, fresh, _) = update_oracle_price_inv checker env req p stakes s h in
      let accepted = update_oracle_price_accepts checker env req p stakes s authorized fresh in
      ground arith

  execute-replay :
      (symbol : String) (tx : Transaction) (s : Storage)
      → price symbol (execute tx s).0 ≡ replay symbol (execute tx s).1 (price symbol s)
  unfolding execute replay set_aggregator freeze_operator price
  execute-replay symbol (update env req p stakes) s =
      elim (Tx-cases (update_oracle_price checker env req p stakes s)) [
        | inl ((s', event), h) ↦
            let (latest, _, _) = price-update_oracle_price checker env req p stakes s symbol h in
            let announced = update_oracle_price-event env req p stakes s h in
            rw (h, announced) latest
        | inr (_, h) ↦ rw h refl
      ]
  execute-replay symbol (new_aggregator env a) s = ground arith
  execute-replay symbol (freeze env a) s = ground arith

  execute-replay_aggregator :
      (tx : Transaction) (s : Storage)
      → (execute tx s).0.aggregator ≡ replay_aggregator (execute tx s).1 s.aggregator
  unfolding execute replay_aggregator set_aggregator freeze_operator
  execute-replay_aggregator (update env req p stakes) s =
      elim (Tx-cases (update_oracle_price checker env req p stakes s)) [
        | inl ((s', event), h) ↦
            let (_, _, kept) = price-update_oracle_price checker env req p stakes s "" h in
            rw h kept
        | inr (_, h) ↦ rw h refl
      ]
  execute-replay_aggregator (new_aggregator env a) s = ground arith
  execute-replay_aggregator (freeze env a) s = ground arith

  run-replay_price :
      (symbol : String) (txs : List Transaction) (s : Storage)
      → price symbol (run txs s).0 ≡ replay symbol (run txs s).1 (price symbol s)
  unfolding run replay
  run-replay_price symbol [] s = refl
  run-replay_price symbol (tx ∷ txs) s =
      let (s', events) = execute tx s in
      run-replay_price symbol txs s'
      ∙ ap (replay symbol (run txs s').1) (execute-replay symbol tx s)
      ∙ sym (replay-append symbol events (run txs s').1 (price symbol s))

  run-replay_aggregator :
      (txs : List Transaction) (s : Storage)
      → (run txs s).0.aggregator ≡ replay_aggregator (run txs s).1 s.aggregator
  unfolding run replay_aggregator
  run-replay_aggregator [] s = refl
  run-replay_aggregator (tx ∷ txs) s =
      let (s', events) = execute tx s in
      run-replay_aggregator txs s'
      ∙ ap (replay_aggregator (run txs s').1) (execute-replay_aggregator tx s)
      ∙ sym (replay_aggregator-append events (run txs s').1 s.aggregator)

  -- After any transactions, those that revert among them, the price of a symbol and the aggregator
  -- are what a listener gets from the events alone: it keeps the price of the latest OracleUpdate for
  -- the symbol and the new aggregator of the latest AggregatorUpdated, or what it knew before.
  pub run-replay :
      (symbol : String) (txs : List Transaction) (s : Storage)
      → (price symbol (run txs s).0 ≡ replay symbol (run txs s).1 (price symbol s))
        × ((run txs s).0.aggregator ≡ replay_aggregator (run txs s).1 s.aggregator)
  run-replay symbol txs s = (run-replay_price symbol txs s, run-replay_aggregator txs s)
