-- ===== src/Operator/Metrics.antt =====
-- The counters of metrics/metrics.go and of metrics/noopmetrics.go, as an interface with two
-- implementations, and the registration of the counters with Prometheus.
use blockless_avs_tools.Base.{ℕ, ◌+◌, String, ok, returned, ◌≡◌, arith, subst}
use blockless_avs_tools.Base.Calls.{Call, ◌>>◌, pure, >>=-eq-returned}

-- The counters of `AvsAndEigenMetrics`.
pub record AvsAndEigenMetrics : Type 0 where
  pub num_tasks_received : ℕ
  pub num_signed_task_responses_accepted_by_aggregator : ℕ

unfoldable pub inc_num_tasks_received : AvsAndEigenMetrics → AvsAndEigenMetrics
inc_num_tasks_received m = record m { num_tasks_received = m.num_tasks_received + 1 }

unfoldable pub inc_num_tasks_accepted_by_aggregator : AvsAndEigenMetrics → AvsAndEigenMetrics
inc_num_tasks_accepted_by_aggregator m = record m {
  num_signed_task_responses_accepted_by_aggregator =
      m.num_signed_task_responses_accepted_by_aggregator + 1;
}

-- What the operator asks of its metrics.
pub record Metrics (M : Type 0) : Type 0 where
  pub task_received : M → M
  pub task_accepted : M → M

abbrev pub avs_and_eigen_metrics : Metrics AvsAndEigenMetrics
avs_and_eigen_metrics = record {
  task_received = inc_num_tasks_received;
  task_accepted = inc_num_tasks_accepted_by_aggregator;
}

abbrev pub noop_metrics : {M : Type 0} → Metrics M
noop_metrics = record { task_received = λ m. m; task_accepted = λ m. m }

-- `prometheus.CounterOpts`.
pub record CounterOpts : Type 0 where
  pub namespace : String
  pub name : String
  pub help : String

abbrev pub tasks_received_opts : CounterOpts
tasks_received_opts = record {
  namespace = "blsavs";
  name = "num_tasks_received";
  help = "The number of tasks received by reading from the avs service manager contract";
}

abbrev pub tasks_accepted_opts : CounterOpts
tasks_accepted_opts = record {
  namespace = "blsavs";
  name = "num_signed_task_responses_accepted_by_aggregator";
  help = "The number of signed task responses accepted by the aggregator";
}

module _ {Reg : Type 0} (new_counter : CounterOpts → Call Reg (Unit {0})) where
  -- `NewAvsAndEigenMetrics`, over `NewCounter` of `promauto.With(reg)`.
  unfoldable pub new_avs_and_eigen_metrics : Call Reg AvsAndEigenMetrics
  new_avs_and_eigen_metrics = do
    new_counter tasks_received_opts
    new_counter tasks_accepted_opts
    pure (record { num_tasks_received = 0; num_signed_task_responses_accepted_by_aggregator = 0 })

  -- If a counter cannot be registered again in a registry that has it, and registering one keeps the
  -- others, the metrics are never made twice over one registry.
  pub new_avs_and_eigen_metrics-once :
      (has : CounterOpts → Reg → Type 0) (reg reg₁ reg₂ : Reg) (m n : AvsAndEigenMetrics)
      → ((opts : CounterOpts) (r r' : Reg)
          → new_counter opts r ≡ (returned (ok tt), r')
          → has opts r' × ((other : CounterOpts) → has other r → has other r'))
      → ((opts : CounterOpts) (r r' : Reg)
          → has opts r
          → ¬ (new_counter opts r ≡ (returned (ok tt), r')))
      → new_avs_and_eigen_metrics reg ≡ (returned (ok m), reg₁)
      → ¬ (new_avs_and_eigen_metrics reg₁ ≡ (returned (ok n), reg₂))
  unfolding new_avs_and_eigen_metrics
  new_avs_and_eigen_metrics-once has reg reg₁ reg₂ m n keeps refuses first second =
      let (_, r, received, rest) = >>=-eq-returned _ _ reg first in
      let (_, r', accepted, made) = >>=-eq-returned _ _ r rest in
      let (_, s, again, _) = >>=-eq-returned _ _ reg₁ second in
      let there =
        (keeps tasks_accepted_opts r r' accepted).1 tasks_received_opts
          ((keeps tasks_received_opts reg r received).0) in
      let same : r' ≡ reg₁ = ground arith in
      refuses tasks_received_opts reg₁ s (subst (has tasks_received_opts) same there) again
