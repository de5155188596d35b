-- ===== src/Shadow/Plan/Valid.antt =====
-- What `ValidateShadowPlan` accepts, and how `PlanShadowBatch` divides what it accepts.
use go_rocketmq_dashboard.Base.{
  ℕ, suc, ◌+◌, ◌≡◌, ◌≢◌, ◌↔◌, refl, sym, ap, Bool, true, false, not, none, List, [], ◌∷◌, ◌++◌, map,
  ◌==◌, text_eq, contains, any, All, filter, length, append-nil, append_assoc, arith, inl, inr,
  Bool-cases,
}
use go_rocketmq_dashboard.Base.Int.{pos, lt_int}
use go_rocketmq_dashboard.Base.Text.{Text, text, trim_space, has_prefix}
use go_rocketmq_dashboard.Shadow.Plan.{
  ShadowSample, ShadowBatchPlan, is_shadow_provider, validate_shadow_providers, validate_sample,
  validate_from, validate_shadow_plan, is_placeholder, first_placeholder, shadow_sample_placeholder,
  skipped_sample, classify, new_plan, plan_shadow_batch, has_shadow_provider,
}

-- What a sample needs: a name, arguments, the official provider, another one, a positive number of
-- samples, and twenty for a percentile.
pub record IsValidSample (sample : ShadowSample) : Type 0 where
  pub has_name : trim_space sample.name ≢ []
  pub has_args : sample.args ≢ []
  pub has_official : contains sample.providers (text "official") ≡ true
  pub has_shadow : any is_shadow_provider sample.providers ≡ true
  pub positive : lt_int (pos 0) sample.min_samples ≡ true
  pub enough : sample.require_p95 ≡ true → lt_int sample.min_samples (pos 20) ≡ false

pub validate_sample_iff :
    (index : ℕ) (sample : ShadowSample)
    → (validate_sample index sample ≡ none) ↔ IsValidSample sample
unfolding validate_sample validate_shadow_providers has_shadow_provider
validate_sample_iff index sample = (λ h. ground arith, λ v. ground arith)

validate_from_iff :
    (index : ℕ) (samples : List ShadowSample)
    → (validate_from index samples ≡ none) ↔ All IsValidSample samples
unfolding validate_from
validate_from_iff index [] = (λ _. tt, λ _. refl)
validate_from_iff index (sample ∷ samples) =
    let rest = validate_from_iff (suc index) samples in
    let first = validate_sample_iff index sample in
    (
      λ h. (first.0 (ground arith), rest.0 (ground arith)),
      λ v. rw (validate_from, first.1 v.0) (rest.1 v.1),
    )

-- `ValidateShadowPlan` accepts a plan exactly when every sample has a name, arguments, the official
-- provider and another one, and a positive number of samples that is 20 or more for a percentile.
pub validate_shadow_plan-iff-All :
    (samples : List ShadowSample)
    → (validate_shadow_plan samples ≡ none) ↔ All IsValidSample samples
unfolding validate_shadow_plan
validate_shadow_plan-iff-All = validate_from_iff 0

-- Some argument is a template placeholder.
abbrev pub has_placeholder : ShadowSample → Bool
has_placeholder sample = any (λ arg. is_placeholder (trim_space arg)) sample.args

placeholder-nonempty : (value : Text) → is_placeholder value ≡ true → not (value == []) ≡ true
unfolding is_placeholder has_prefix
placeholder-nonempty [] h = cc
placeholder-nonempty (c ∷ value) h = ground arith

first_placeholder-any :
    (args : List Text)
    → not (first_placeholder args == []) ≡ any (λ arg. is_placeholder (trim_space arg)) args
unfolding first_placeholder
first_placeholder-any [] = ground arith
first_placeholder-any (arg ∷ args) = elim (Bool-cases (is_placeholder (trim_space arg))) [
  | inl e ↦ rw e (placeholder-nonempty (trim_space arg) e)
  | inr e ↦ rw e (first_placeholder-any args)
]

add_zero : (n : ℕ) → n ≡ n + 0
add_zero n = omega arith

add_one : (m n : ℕ) → m + 1 + n ≡ m + suc n
add_one m n = omega arith

divided :
    {A : Type 0} (p : A → Bool) (l : List A)
    → length (filter (λ a. not (p a)) l) + length (filter p l) ≡ length l
divided p [] = omega arith
divided p (a ∷ l) = ground (arith, divided p l)

module _ (quote : Text → Text) where
  classify_lem :
      (plan : ShadowBatchPlan) (samples : List ShadowSample)
      → classify quote plan samples ≡ record plan {
        executable_samples =
            plan.executable_samples + length (filter (λ s. not (has_placeholder s)) samples);
        skipped_samples = plan.skipped_samples + length (filter has_placeholder samples);
        executable = plan.executable ++ filter (λ s. not (has_placeholder s)) samples;
        skipped = plan.skipped ++ map (skipped_sample quote) (filter has_placeholder samples);
      }
  unfolding classify shadow_sample_placeholder
  classify_lem plan [] = λ i. record plan {
    executable_samples = add_zero plan.executable_samples i;
    skipped_samples = add_zero plan.skipped_samples i;
    executable = sym (append-nil plan.executable) i;
    skipped = sym (append-nil plan.skipped) i;
  }
  classify_lem plan (sample ∷ samples) = elim (Bool-cases (has_placeholder sample)) [
    | inl e ↦
        rw
          (
            first_placeholder-any sample.args,
            e,
            classify_lem
                (record plan {
                  skipped_samples = plan.skipped_samples + 1;
                  skipped = plan.skipped ++ (skipped_sample quote sample ∷ []);
                })
                samples,
            append_assoc,
          )
          (λ i. record plan {
            executable_samples =
                plan.executable_samples + length (filter (λ s. not (has_placeholder s)) samples);
            skipped_samples =
                add_one plan.skipped_samples (length (filter has_placeholder samples)) i;
            executable = plan.executable ++ filter (λ s. not (has_placeholder s)) samples;
            skipped =
                plan.skipped
                ++ skipped_sample quote sample
                  ∷ map (skipped_sample quote) (filter has_placeholder samples);
          })
    | inr e ↦
        rw
          (
            first_placeholder-any sample.args,
            e,
            classify_lem
                (record plan {
                  executable_samples = plan.executable_samples + 1;
                  executable = plan.executable ++ (sample ∷ []);
                })
                samples,
            append_assoc,
          )
          (λ i. record plan {
            executable_samples =
                add_one plan.executable_samples
                  (length (filter (λ s. not (has_placeholder s)) samples)) i;
            skipped_samples = plan.skipped_samples + length (filter has_placeholder samples);
            executable = plan.executable ++ sample ∷ filter (λ s. not (has_placeholder s)) samples;
            skipped = plan.skipped ++ map (skipped_sample quote) (filter has_placeholder samples);
          })
  ]

  sample-skipped_sample :
      (samples : List ShadowSample)
      → map (λ s. s.sample) (map (skipped_sample quote) samples) ≡ samples
  unfolding skipped_sample
  sample-skipped_sample [] = refl
  sample-skipped_sample (sample ∷ samples) = ap (◌∷◌ sample) (sample-skipped_sample samples)

  length-map :
      (samples : List ShadowSample) → length samples ≡ length (map (skipped_sample quote) samples)
  length-map [] = refl
  length-map (sample ∷ samples) = ap suc (length-map samples)

  plan_shadow_batch_of_valid :
      (samples : List ShadowSample)
      → validate_shadow_plan samples ≡ none
      → plan_shadow_batch quote samples ≡ classify quote (new_plan quote samples) samples
  unfolding plan_shadow_batch
  plan_shadow_batch_of_valid samples h = rw (plan_shadow_batch, h) refl

  -- A plan that validates is divided without loss: the executable samples are those without a
  -- placeholder argument, the skipped ones are the others, both in the order of the plan, and the
  -- counts are the lengths of the two lists and add up to the total.
  pub plan_shadow_batch_divides :
      (samples : List ShadowSample)
      → validate_shadow_plan samples ≡ none
      → ((plan_shadow_batch quote samples).executable
          ≡ filter (λ s. not (has_placeholder s)) samples)
        × (map (λ s. s.sample) (plan_shadow_batch quote samples).skipped
            ≡ filter has_placeholder samples)
        × ((plan_shadow_batch quote samples).executable_samples
            ≡ length (plan_shadow_batch quote samples).executable)
        × ((plan_shadow_batch quote samples).skipped_samples
            ≡ length (plan_shadow_batch quote samples).skipped)
        × ((plan_shadow_batch quote samples).executable_samples
              + (plan_shadow_batch quote samples).skipped_samples
            ≡ (plan_shadow_batch quote samples).total_samples)
        × ((plan_shadow_batch quote samples).errors ≡ [])
  unfolding plan_shadow_batch new_plan skipped_sample
  plan_shadow_batch_divides samples h =
      rw (plan_shadow_batch_of_valid samples h, classify_lem (new_plan quote samples) samples)
        (
          refl,
          sample-skipped_sample (filter has_placeholder samples),
          omega arith,
          omega (arith, length-map (filter has_placeholder samples)),
          omega (arith, divided has_placeholder samples),
          refl,
        )
