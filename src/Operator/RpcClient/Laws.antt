-- ===== src/Operator/RpcClient/Laws.antt =====
-- The retries of a send, and what happens to the connection over many sends.
use blockless_avs_tools.Base.{
  ℕ, zero, suc, ◌+◌, ◌*◌, ◌<◌, ok, err, GoError, ◌≡◌, ◌⊎◌, inl, inr, arith, Result-cases,
}
use blockless_avs_tools.Aggregator.State.{SignedOracleResponse}
use blockless_avs_tools.Operator.RpcClient.{Network, AggregatorRpcClient, second, try_calls}

module _ {W Client Sig : Type 0} (net : Network W Client Sig) (client : Client)
    (resp : SignedOracleResponse Sig) where
  -- The network after `k` calls.
  abbrev pub after_calls : ℕ → W → W
  after_calls zero w = w
  after_calls (suc k) w = after_calls k (net.call client resp w).1

  -- The first `k` calls all fail.
  abbrev pub FailingCalls : ℕ → W → Type 0
  FailingCalls zero w = Unit
  FailingCalls (suc k) w =
      ((e : GoError) × ((net.call client resp w).0 ≡ err e))
      × FailingCalls k (net.call client resp w).1

  -- What `k` failed calls leave: only time has passed.
  abbrev pub waited : ℕ → AggregatorRpcClient W Client → AggregatorRpcClient W Client
  waited k c = record c { slept = c.slept + k * (2 * second); network = after_calls k c.network }

  -- One round whose call fails.
  abbrev failed_round : AggregatorRpcClient W Client → AggregatorRpcClient W Client
  failed_round c = record c {
    slept = c.slept + 2 * second;
    network = (net.call client resp c.network).1;
  }

  try_calls-ok :
      (n : ℕ) (c : AggregatorRpcClient W Client)
      → (net.call client resp c.network).0 ≡ ok tt
      → try_calls net (suc n) client resp c ≡ record c {
        num_tasks_accepted = c.num_tasks_accepted + 1;
        network = (net.call client resp c.network).1;
      }
  unfolding try_calls
  try_calls-ok n c h = ground arith

  try_calls-err :
      (n : ℕ) (c : AggregatorRpcClient W Client) {e : GoError}
      → (net.call client resp c.network).0 ≡ err e
      → try_calls net (suc n) client resp c ≡ try_calls net n client resp (failed_round c)
  unfolding try_calls
  try_calls-err n c h = rw (h, try_calls)

  -- Of `n` attempts the calls are made up to the first success: either `k < n` of them fail and
  -- the next succeeds, which is counted once and ends the loop, or all `n` fail, which counts
  -- nothing. Every failed call, the last one too, is followed by two seconds of sleep.
  pub try_calls_lem :
      (n : ℕ) (c : AggregatorRpcClient W Client)
      → ((k : ℕ) × (k < n)
          × FailingCalls k c.network
          × ((net.call client resp (after_calls k c.network)).0 ≡ ok tt)
          × (try_calls net n client resp c ≡ record (waited k c) {
            num_tasks_accepted = c.num_tasks_accepted + 1;
            network = after_calls (suc k) c.network;
          }))
        ⊎ (FailingCalls n c.network × (try_calls net n client resp c ≡ waited n c))
  try_calls_lem zero c = inr (tt, unfold try_calls in ground arith)
  try_calls_lem (suc n) c = elim (Result-cases (net.call client resp c.network).0) [
    | inl (_, h) ↦ inl (0, omega arith, tt, h, ground (arith, try_calls-ok n c h))
    | inr (e, h) ↦ elim (try_calls_lem n (failed_round c)) [
      | inl (k, lt, fails, succeeds, same) ↦
          inl (suc k, omega arith, ((e, h), fails), succeeds, ground (arith, try_calls-err n c h))
      | inr (fails, same) ↦ inr (((e, h), fails), ground (arith, try_calls-err n c h))
    ]
  ]

  -- Where the next `n` calls fail, `n` attempts leave nothing but the time that they took.
  pub try_calls-all_fail :
      (n : ℕ) (c : AggregatorRpcClient W Client)
      → FailingCalls n c.network
      → try_calls net n client resp c ≡ waited n c
  try_calls-all_fail zero c h = unfold try_calls in ground arith
  try_calls-all_fail (suc n) c ((e, h), fails) =
      ground (arith, try_calls-err n c h, try_calls-all_fail n (failed_round c) fails)
