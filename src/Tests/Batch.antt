-- ===== src/Tests/Batch.antt =====
-- A batch of two samples on two workers, the second of which is done first.
use go_rocketmq_dashboard.Base.{
  ℕ, ◌*◌, ◌-◌, ◌≤◌, ◌<◌, ◌≡◌, refl, sym, true, false, none, some, Option, List, [], ◌∷◌, map,
  length, text_eq, nat_eq, arith,
}
use mathlib.Core.Path.{subst}
use go_rocketmq_dashboard.Base.Int.{pos}
use go_rocketmq_dashboard.Base.Text.{Text, text, trim_space, trim_left, trim_right, is_space}
use go_rocketmq_dashboard.Shadow.Plan.{ShadowSample, validate_shadow_plan}
use go_rocketmq_dashboard.Shadow.Compare.{ShadowComparableOutput}
use go_rocketmq_dashboard.Shadow.Summary.{ShadowResult}
use go_rocketmq_dashboard.Shadow.Workers.{
  Pool, send, write, PoolSteps, done, next, IsComplete, jobs_from, set_result,
}
use go_rocketmq_dashboard.Shadow.Workers.Schedules.{initial_pool}
use go_rocketmq_dashboard.Shadow.Workers.Ends.{schedules_end}
use go_rocketmq_dashboard.Shadow.Batch.{
  ShadowBatch, ShadowTarget, BatchEnds, on_workers, batch_result, concrete_samples, empty_results,
  worker_count, run_shadow_batch_sample,
}
use go_rocketmq_dashboard.Shadow.Batch.Refinement.{batch_refines, promised}

-- Workers that double a number.
abbrev double : ℕ → ℕ
double n = 2 * n

abbrev two_numbers : List ℕ
two_numbers = 5 ∷ 7 ∷ []

abbrev numbers : Pool ℕ ℕ
numbers = initial_pool two_numbers (0 ∷ 0 ∷ [])

abbrev one_sent : Pool ℕ ℕ
one_sent = record { unsent = (1, 7) ∷ []; running = (0, 5) ∷ []; results = 0 ∷ 0 ∷ [] }

first_send : PoolSteps double 2 1 numbers one_sent
unfolding jobs_from
first_send =
    next 0 numbers one_sent one_sent (send numbers (0, 5) ((1, 7) ∷ []) refl (omega arith))
      (done one_sent)

schedules_end_example :
    (1 ≤ 2 * length two_numbers)
    × ((q : Pool ℕ ℕ) × PoolSteps double 2 (2 * length two_numbers - 1) one_sent q × IsComplete q)
schedules_end_example =
    schedules_end double 2 1 two_numbers (0 ∷ 0 ∷ []) one_sent (omega arith) first_send

abbrev sample : Text → ShadowSample
sample name = record {
  name = name;
  args = name ∷ [];
  providers = text "official" ∷ text "native" ∷ [];
  serial_targets = false;
  min_samples = pos 20;
  require_p95 = true;
  notes = [];
}

-- A provider that prints its arguments' first letter.
abbrev echo : Text → ShadowTarget
echo name = record {
  name = name;
  run = λ args. (record { stdout = text "ok"; stderr = []; artifacts = []; error = [] }, 3);
}

abbrev batch : ShadowBatch
batch = record {
  primary = echo (text "official");
  targets = echo (text "native") ∷ [];
  samples = sample (text "topicList") ∷ sample (text "clusterList") ∷ [];
  max_concurrency = pos 4;
}

abbrev same_output : Text → ShadowComparableOutput → ShadowComparableOutput
same_output command o = o

abbrev result_of : ShadowSample → ShadowResult
result_of = run_shadow_batch_sample same_output batch

abbrev samples : List ShadowSample
samples = batch.samples

abbrev start : Pool ShadowSample ShadowResult
start = initial_pool (concrete_samples samples) (empty_results (concrete_samples samples))

abbrev job : ℕ → Text → ℕ × ShadowSample
job i name = (i, sample name)

abbrev both_sent : Pool ShadowSample ShadowResult
both_sent = record {
  unsent = [];
  running = job 1 (text "clusterList") ∷ job 0 (text "topicList") ∷ [];
  results = start.results;
}

abbrev first_sent : Pool ShadowSample ShadowResult
first_sent = record start {
  unsent = job 1 (text "clusterList") ∷ [];
  running = job 0 (text "topicList") ∷ [];
}

abbrev second_written : Pool ShadowSample ShadowResult
second_written = record {
  unsent = [];
  running = job 0 (text "topicList") ∷ [];
  results = set_result start.results 1 (result_of (sample (text "clusterList")));
}

abbrev all_written : Pool ShadowSample ShadowResult
all_written = record {
  unsent = [];
  running = [];
  results = set_result second_written.results 0 (result_of (sample (text "topicList")));
}

schedule : PoolSteps result_of 2 4 start all_written
unfolding jobs_from concrete_samples text_eq
    go_rocketmq_dashboard.Shadow.Plan.shadow_sample_placeholder
    go_rocketmq_dashboard.Base.Text.has_prefix trim_space trim_right trim_left is_space nat_eq
schedule =
    next 3 start first_sent all_written
      (send start (job 0 (text "topicList")) (job 1 (text "clusterList") ∷ []) refl (omega arith))
      (next 2 first_sent both_sent all_written
        (send first_sent (job 1 (text "clusterList")) [] refl (omega arith))
        (next 1 both_sent second_written all_written
          (write both_sent [] (job 1 (text "clusterList")) (job 0 (text "topicList") ∷ []) refl)
          (next 0 second_written all_written all_written
            (write second_written [] (job 0 (text "topicList")) [] refl) (done all_written))))

plan_valid : validate_shadow_plan samples ≡ none
unfolding validate_shadow_plan go_rocketmq_dashboard.Shadow.Plan.validate_sample text_eq trim_space
    trim_right trim_left is_space nat_eq go_rocketmq_dashboard.Shadow.Plan.validate_shadow_providers
    go_rocketmq_dashboard.Shadow.Plan.has_shadow_provider
plan_valid = refl

two_workers : worker_count (pos 4) (length (concrete_samples samples)) ≡ 2
unfolding worker_count concrete_samples text_eq
    go_rocketmq_dashboard.Shadow.Plan.shadow_sample_placeholder
    go_rocketmq_dashboard.Base.Text.has_prefix trim_space trim_right trim_left is_space nat_eq
two_workers = refl

some_worker : 0 < worker_count (pos 4) (length (concrete_samples samples))
some_worker = subst (λ n. 0 < n) (sym two_workers) (omega arith)

out_of_order_end : BatchEnds same_output batch (batch_result samples all_written.results)
out_of_order_end =
    on_workers 4 all_written plan_valid some_worker
      (subst (λ n. PoolSteps result_of n 4 start all_written) (sym two_workers) schedule)
      (refl, refl)

batch_refines_example : batch_result samples all_written.results ≡ promised same_output batch
batch_refines_example =
    batch_refines same_output batch (batch_result samples all_written.results) out_of_order_end
