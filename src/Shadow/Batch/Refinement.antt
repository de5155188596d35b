-- ===== src/Shadow/Batch/Refinement.antt =====
-- A batch ends with the same result whatever its workers do.
use go_rocketmq_dashboard.Base.{
  Option-cases, ℕ, zero, suc, ◌<◌, ◌≡◌, ◌∙◌, refl, sym, ap, List, [], ◌∷◌, map, length, Option,
  none, some, ◌⊎◌, inl, inr, arith,
}
use go_rocketmq_dashboard.Shadow.Plan.{ShadowSample, ShadowPlanError, validate_shadow_plan}
use go_rocketmq_dashboard.Shadow.Compare.{ShadowComparableOutput}
use go_rocketmq_dashboard.Base.Text.{Text}
use go_rocketmq_dashboard.Shadow.Batch.{
  ShadowBatch, ShadowBatchResult, BatchEnds, rejected, in_order, on_workers, concrete_samples,
  empty_results, worker_count, batch_result, rejected_result, run_shadow_batch_sample,
}
use go_rocketmq_dashboard.Shadow.Workers.{done}
use go_rocketmq_dashboard.Shadow.Workers.Schedules.{schedule_lem, initial_pool}
use go_rocketmq_dashboard.Shadow.Workers.Ends.{schedules_end}
use go_rocketmq_dashboard.Shadow.Workers.Sequential.{run_jobs_lem}

length-empty_results :
    (samples : List ShadowSample) → length (empty_results samples) ≡ length samples
unfolding empty_results
length-empty_results [] = refl
length-empty_results (s ∷ samples) = ap suc (length-empty_results samples)

zero-or_pos : (n : ℕ) → (n ≡ 0) ⊎ (0 < n)
zero-or_pos zero = inl refl
zero-or_pos (suc n) = inr (omega arith)

module _ (normalize : Text → ShadowComparableOutput → ShadowComparableOutput) where
  -- The result that a batch promises: the plan's error, or the comparison of each concrete sample, in
  -- the order of the samples.
  abbrev pub promised_of : ShadowBatch → Option ShadowPlanError → ShadowBatchResult
  promised_of batch (some e) = rejected_result batch.samples e
  promised_of batch none =
      batch_result batch.samples
        (map (run_shadow_batch_sample normalize batch) (concrete_samples batch.samples))

  abbrev pub promised : ShadowBatch → ShadowBatchResult
  promised batch = promised_of batch (validate_shadow_plan batch.samples)

  -- Every run of a batch, in order or under any schedule of its workers, ends with the promised
  -- result.
  pub batch_refines :
      (batch : ShadowBatch) (result : ShadowBatchResult)
      → BatchEnds normalize batch result
      → result ≡ promised batch
  batch_refines batch _ (rejected e invalid) = ap (promised_of batch) (sym invalid)
  batch_refines batch _ (in_order valid alone) =
      ap (batch_result batch.samples) (
        run_jobs_lem (run_shadow_batch_sample normalize batch) (concrete_samples batch.samples)
          (empty_results (concrete_samples batch.samples))
          (length-empty_results (concrete_samples batch.samples)))
      ∙ ap (promised_of batch) (sym valid)
  batch_refines batch _ (on_workers n pool valid some_worker steps complete) =
      ap (batch_result batch.samples) (
        schedule_lem (run_shadow_batch_sample normalize batch) _ n (concrete_samples batch.samples)
          (empty_results (concrete_samples batch.samples)) pool
          (length-empty_results (concrete_samples batch.samples)) steps complete)
      ∙ ap (promised_of batch) (sym valid)

  -- Every batch has a run that ends.
  pub batch_ends :
      (batch : ShadowBatch) → (result : ShadowBatchResult) × BatchEnds normalize batch result
  batch_ends batch =
      let samples = concrete_samples batch.samples in
      let zeros = empty_results samples in
      let workers = worker_count batch.max_concurrency (length samples) in
      elim (Option-cases (validate_shadow_plan batch.samples)) [
        | inr (e, invalid) ↦ (rejected_result batch.samples e, rejected e invalid)
        | inl valid ↦ elim (zero-or_pos workers) [
          | inl alone ↦ (_, in_order valid alone)
          | inr some_worker ↦
              let last =
                schedules_end (run_shadow_batch_sample normalize batch) workers 0 samples zeros
                  (initial_pool samples zeros) some_worker (done (initial_pool samples zeros)) in
              (_, on_workers _ last.1.0 valid some_worker last.1.1 last.1.2)
        ]
      ]
