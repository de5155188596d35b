-- ===== src/Shadow/Batch.antt =====
-- internal/rocketmq/goadmin/shadow_batch.go and shadow.go: the run of a batch of samples, one after
-- the other or on several workers.
pub mod Refinement
use go_rocketmq_dashboard.Base.{
  ℕ, zero, suc, ◌+◌, ◌<◌, ◌≡◌, Bool, true, false, not, ◌||◌, if◌then◌else◌, ltb, ◌==◌, text_eq,
  List, [], ◌∷◌, map, filter, contains, length, count, is_nil, Option, none, some,
}
use go_rocketmq_dashboard.Base.Int.{ℤ, pos, negsuc}
use go_rocketmq_dashboard.Base.Text.{Text}
use go_rocketmq_dashboard.Shadow.Plan.{
  ShadowSample, ShadowPlanError, validate_shadow_plan, shadow_sample_placeholder,
}
use go_rocketmq_dashboard.Shadow.Compare.{ShadowComparableOutput, ShadowDiff, compare_shadow_output}
use go_rocketmq_dashboard.Shadow.Summary.{ShadowResult, ShadowSummary, summarize_shadow_results}
use go_rocketmq_dashboard.Shadow.Workers.{jobs_from, run_jobs, Pool, PoolSteps, IsComplete}
use go_rocketmq_dashboard.Shadow.Workers.Schedules.{initial_pool}

-- A provider: its runner is a function from the arguments to an output and a duration.
pub record ShadowTarget : Type 0 where
  pub name : Text
  pub run : List Text → ShadowComparableOutput × ℕ

pub record ShadowBatch : Type 0 where
  pub primary : ShadowTarget
  pub targets : List ShadowTarget
  pub samples : List ShadowSample
  pub max_concurrency : ℤ

pub record ShadowBatchResult : Type 0 where
  pub total_samples : ℕ
  pub executed_samples : ℕ
  pub skipped_samples : ℕ
  pub results : List ShadowResult
  pub summary : ShadowSummary
  pub errors : List ShadowPlanError

unfoldable pub shadow_command : List Text → Text
shadow_command [] = []
shadow_command (arg ∷ args) = arg

unfoldable pub enabled_targets : List ShadowTarget → List Text → List ShadowTarget
enabled_targets [] providers = []
enabled_targets (t ∷ ts) providers =
    let rest = enabled_targets ts providers in if contains providers t.name then t ∷ rest else rest

unfoldable pub shadow_targets_for_sample : List ShadowTarget → ShadowSample → List ShadowTarget
unfolding enabled_targets
shadow_targets_for_sample targets sample =
    if is_nil targets || is_nil sample.providers
    then []
    else enabled_targets targets sample.providers

unfoldable pub shadow_sample_has_placeholder : ShadowSample → Bool
shadow_sample_has_placeholder sample = not (shadow_sample_placeholder sample == [])

-- The samples that are run, in their order.
unfoldable pub concrete_samples : List ShadowSample → List ShadowSample
unfolding shadow_sample_has_placeholder
concrete_samples [] = []
concrete_samples (sample ∷ samples) =
    let rest = concrete_samples samples in
    if shadow_sample_has_placeholder sample then rest else sample ∷ rest

-- `ShadowResult{}`, which stands for each result before it is written.
unfoldable pub empty_results : List ShadowSample → List ShadowResult
empty_results [] = []
empty_results (sample ∷ samples) =
    record { command = []; args = []; diffs = [] } ∷ empty_results samples

-- `workers := batch.MaxConcurrency`, at most one for each job; one and less is none.
unfoldable pub worker_count : ℤ → ℕ → ℕ
worker_count (negsuc n) jobs = 0
worker_count (pos n) jobs = if ltb 1 n then (if ltb jobs n then jobs else n) else 0

abbrev no_summary : ShadowSummary
no_summary = record { commands = 0; targets = 0; mismatches = 0; by_target = [] }

-- The result of a batch whose slice ends as `results`.
unfoldable pub batch_result : List ShadowSample → List ShadowResult → ShadowBatchResult
unfolding concrete_samples shadow_sample_has_placeholder
batch_result samples results = record {
  total_samples = length samples;
  executed_samples = length (concrete_samples samples);
  skipped_samples = count shadow_sample_has_placeholder samples;
  results = results;
  summary = summarize_shadow_results results;
  errors = [];
}

unfoldable pub rejected_result : List ShadowSample → ShadowPlanError → ShadowBatchResult
rejected_result samples e = record {
  total_samples = length samples;
  executed_samples = 0;
  skipped_samples = 0;
  results = [];
  summary = no_summary;
  errors = e ∷ [];
}

-- `normalize` is what the outputs of a command are brought to before they are compared.
module _ (normalize : Text → ShadowComparableOutput → ShadowComparableOutput) where
  unfoldable pub run_shadow_target_comparison :
      List Text → ShadowComparableOutput → ShadowTarget → ShadowDiff
  unfolding compare_shadow_output
  run_shadow_target_comparison args primary target =
      let ran = target.run args in
      record (compare_shadow_output primary (normalize (shadow_command args) ran.0)) {
        target = target.name;
        duration = ran.1;
      }

  -- The differences stand in the order of the targets.
  unfoldable pub run_shadow_compare : List Text → ShadowTarget → List ShadowTarget → ShadowResult
  unfolding run_shadow_target_comparison shadow_command
  run_shadow_compare args primary targets =
      let normalized = normalize (shadow_command args) (primary.run args).0 in
      record {
        command = shadow_command args;
        args = args;
        diffs = map (run_shadow_target_comparison args normalized) targets;
      }

  unfoldable pub run_shadow_batch_sample : ShadowBatch → ShadowSample → ShadowResult
  unfolding run_shadow_compare shadow_targets_for_sample
  run_shadow_batch_sample batch sample =
      run_shadow_compare sample.args batch.primary (shadow_targets_for_sample batch.targets sample)

  -- What a run of a batch may end with: the plan's error, the sequential loop, or any complete
  -- schedule of the workers.
  pub data BatchEnds (batch : ShadowBatch) : ShadowBatchResult → Type 0 where
    rejected :
        (e : ShadowPlanError)
        → validate_shadow_plan batch.samples ≡ some e
        → BatchEnds batch (rejected_result batch.samples e)
    in_order :
        validate_shadow_plan batch.samples ≡ none
        → worker_count batch.max_concurrency (length (concrete_samples batch.samples)) ≡ 0
        → BatchEnds batch (
            batch_result batch.samples (
              run_jobs
                (run_shadow_batch_sample batch)
                (jobs_from 0 (concrete_samples batch.samples))
                (empty_results (concrete_samples batch.samples))))
    on_workers :
        (n : ℕ) (pool : Pool ShadowSample ShadowResult)
        → validate_shadow_plan batch.samples ≡ none
        → 0 < worker_count batch.max_concurrency (length (concrete_samples batch.samples))
        → PoolSteps
            (run_shadow_batch_sample batch)
            (worker_count batch.max_concurrency (length (concrete_samples batch.samples)))
            n
            (initial_pool
              (concrete_samples batch.samples)
              (empty_results (concrete_samples batch.samples)))
            pool
        → IsComplete pool
        → BatchEnds batch (batch_result batch.samples pool.results)
