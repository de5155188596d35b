-- ===== src/Shadow/Plan.antt =====
-- The sample plans of shadow_plan.go and the dry run of shadow_batch.go. A sample is a value here,
-- so that the source's copies of samples are the samples.
pub mod Valid
pub mod Overrides
use go_rocketmq_dashboard.Base.{
  ℕ, zero, suc, ◌+◌, Bool, true, false, not, ◌&&◌, ◌||◌, Option, none, some, List, [], ◌∷◌, ◌++◌,
  map, if◌then◌else◌, ◌==◌, text_eq, contains, is_nil, length, nat_eq, any,
}
use go_rocketmq_dashboard.Base.Dict.{Dict, lookup, insert}
use go_rocketmq_dashboard.Base.Int.{ℤ, pos, lt_int}
use go_rocketmq_dashboard.Base.Text.{Text, text, trim_space, has_prefix, last_or}

pub record ShadowSample : Type 0 where
  pub name : Text
  pub args : List Text
  pub providers : List Text
  pub serial_targets : Bool
  pub min_samples : ℤ
  pub require_p95 : Bool
  pub notes : Text

pub record ShadowSampleFixture : Type 0 where
  pub name : Text
  pub args : List Text
  pub repeat : ℤ
  pub serial_targets : Bool

-- The errors of `ValidateShadowPlan` and `ApplyShadowFixtureOverrides`, with what they print.
pub data ShadowPlanError : Type 0 where
  sample_name_empty : ℕ → ShadowPlanError
  sample_args_empty : Text → ShadowPlanError
  official_missing : Text → ShadowPlanError
  shadow_provider_missing : Text → ShadowPlanError
  min_samples_not_positive : Text → ShadowPlanError
  min_samples_below_p95 : Text → ShadowPlanError
  fixture_name_empty : ℕ → ShadowPlanError
  fixture_args_empty : Text → ShadowPlanError
  fixture_unknown : Text → ShadowPlanError

unfoldable pub is_shadow_provider : Text → Bool
is_shadow_provider provider =
    provider == text "sidecar" || provider == text "native" || provider == text "auto"

unfoldable pub has_shadow_provider : List Text → Bool
unfolding is_shadow_provider
has_shadow_provider = any is_shadow_provider

unfoldable pub validate_shadow_providers : Text → List Text → Option ShadowPlanError
validate_shadow_providers sample_name providers =
    if not (contains providers (text "official"))
    then some (official_missing sample_name)
    else if not (has_shadow_provider providers)
    then some (shadow_provider_missing sample_name)
    else none

-- The body of the loop of `ValidateShadowPlan`.
unfoldable pub validate_sample : ℕ → ShadowSample → Option ShadowPlanError
validate_sample index sample =
    let name = trim_space sample.name in
    if name == []
    then some (sample_name_empty index)
    else if is_nil sample.args
    then some (sample_args_empty name)
    else elim (validate_shadow_providers name sample.providers) [
      | some e ↦ some e
      | none ↦
          if not (lt_int (pos 0) sample.min_samples)
          then some (min_samples_not_positive name)
          else if sample.require_p95 && lt_int sample.min_samples (pos 20)
          then some (min_samples_below_p95 name)
          else none
    ]

unfoldable pub validate_from : ℕ → List ShadowSample → Option ShadowPlanError
validate_from index [] = none
validate_from index (sample ∷ samples) = elim (validate_sample index sample) [
  | some e ↦ some e
  | none ↦ validate_from (suc index) samples
]

unfoldable pub validate_shadow_plan : List ShadowSample → Option ShadowPlanError
unfolding validate_from
validate_shadow_plan = validate_from 0

-- `strings.HasPrefix(value, "<") && strings.HasSuffix(value, ">")`
unfoldable pub is_placeholder : Text → Bool
is_placeholder value = has_prefix value (text "<") && last_or 0 value == 62

-- The first placeholder among the arguments; the empty text for none.
unfoldable pub first_placeholder : List Text → Text
unfolding is_placeholder
first_placeholder [] = []
first_placeholder (arg ∷ args) =
    let rest = first_placeholder args in
    if is_placeholder (trim_space arg) then trim_space arg else rest

unfoldable pub shadow_sample_placeholder : ShadowSample → Text
unfolding first_placeholder
shadow_sample_placeholder sample = first_placeholder sample.args

pub record ShadowSkippedSample : Type 0 where
  pub sample : ShadowSample
  pub reason : Text
  pub placeholder : Text

pub record ShadowBatchPlan : Type 0 where
  pub total_samples : ℕ
  pub executable_samples : ℕ
  pub skipped_samples : ℕ
  pub executable : List ShadowSample
  pub skipped : List ShadowSkippedSample
  pub errors : List ShadowPlanError

-- `strconv.Quote`, which `%q` prints with.
module _ (quote : Text → Text) where
  skipped_sample : ShadowSample → ShadowSkippedSample
  unfolding shadow_sample_placeholder
  skipped_sample sample = record {
    sample = sample;
    reason =
        text "sample "
        ++ quote sample.name
        ++ text " contains placeholder "
        ++ quote (shadow_sample_placeholder sample);
    placeholder = shadow_sample_placeholder sample;
  }

  -- The loop of `PlanShadowBatch`, which appends at the end of the two lists and counts.
  classify : ShadowBatchPlan → List ShadowSample → ShadowBatchPlan
  unfolding skipped_sample
  classify plan [] = plan
  classify plan (sample ∷ samples) =
      if not (shadow_sample_placeholder sample == [])
      then classify
          (record plan {
            skipped_samples = plan.skipped_samples + 1;
            skipped = plan.skipped ++ (skipped_sample sample ∷ []);
          })
          samples
      else classify
          (record plan {
            executable_samples = plan.executable_samples + 1;
            executable = plan.executable ++ (sample ∷ []);
          })
          samples

  new_plan : List ShadowSample → ShadowBatchPlan
  new_plan samples = record {
    total_samples = length samples;
    executable_samples = 0;
    skipped_samples = 0;
    executable = [];
    skipped = [];
    errors = [];
  }

  pub plan_shadow_batch : List ShadowSample → ShadowBatchPlan
  unfolding new_plan classify
  plan_shadow_batch samples = elim (validate_shadow_plan samples) [
    | some e ↦ record (new_plan samples) { errors = e ∷ [] }
    | none ↦ classify (new_plan samples) samples
  ]

-- Why `ApplyShadowFixtureOverrides` refuses a fixture; `names` are those of the templates.
unfoldable pub check_fixture : List Text → ℕ → ShadowSampleFixture → Option ShadowPlanError
check_fixture names index fixture =
    let name = trim_space fixture.name in
    if name == []
    then some (fixture_name_empty index)
    else if is_nil fixture.args
    then some (fixture_args_empty name)
    else if not (contains names name)
    then some (fixture_unknown name)
    else none

pub data Grouped : Type 0 where
  refused : ShadowPlanError → Grouped
  groups : Dict Text (List ShadowSampleFixture) → Grouped

unfoldable pub fixtures_of : Dict Text (List ShadowSampleFixture) → Text → List ShadowSampleFixture
fixtures_of grouped name = elim (lookup name grouped) [ none ↦ [] | some fixtures ↦ fixtures ]

-- The first loop of `ApplyShadowFixtureOverrides`.
unfoldable pub group_fixtures :
    List Text → ℕ → Dict Text (List ShadowSampleFixture) → List ShadowSampleFixture → Grouped
unfolding check_fixture fixtures_of
group_fixtures names index grouped [] = groups grouped
group_fixtures names index grouped (fixture ∷ fixtures) =
    let name = trim_space fixture.name in
    elim (check_fixture names index fixture) [
      | some e ↦ refused e
      | none ↦
          group_fixtures names (suc index)
            (insert name (fixtures_of grouped name ++ (record fixture { name = name } ∷ []))
              grouped)
            fixtures
    ]

unfoldable pub concrete : ShadowSample → ShadowSampleFixture → ShadowSample
concrete sample fixture = record sample {
  args = fixture.args;
  serial_targets = fixture.serial_targets || sample.serial_targets;
}

unfoldable pub copies : ℕ → ShadowSample → List ShadowSample
copies zero sample = []
copies (suc n) sample = sample ∷ copies n sample

-- A fixture is repeated at least once.
unfoldable pub repeat_count : ℤ → ℕ
repeat_count (pos zero) = 1
repeat_count (pos (suc n)) = suc n
repeat_count _ = 1

unfoldable pub expand : ShadowSample → List ShadowSampleFixture → List ShadowSample
unfolding copies repeat_count concrete
expand sample [] = []
expand sample (fixture ∷ fixtures) =
    copies (repeat_count fixture.repeat) (concrete sample fixture) ++ expand sample fixtures

-- The second loop of `ApplyShadowFixtureOverrides`.
unfoldable pub merge_samples :
    Dict Text (List ShadowSampleFixture) → List ShadowSample → List ShadowSample
unfolding fixtures_of expand
merge_samples grouped [] = []
merge_samples grouped (sample ∷ samples) =
    let fixtures = fixtures_of grouped sample.name in
    let rest = merge_samples grouped samples in
    if is_nil fixtures then sample ∷ rest else expand sample fixtures ++ rest

pub data MergedSamples : Type 0 where
  refused : ShadowPlanError → MergedSamples
  merged : List ShadowSample → MergedSamples

unfoldable pub apply_shadow_fixture_overrides :
    List ShadowSample → List ShadowSampleFixture → MergedSamples
unfolding group_fixtures merge_samples
apply_shadow_fixture_overrides base [] = MergedSamples.merged base
apply_shadow_fixture_overrides base overrides =
    elim (group_fixtures (map (λ s. s.name) base) 0 [] overrides) [
      | Grouped.refused e ↦ MergedSamples.refused e
      | groups grouped ↦ MergedSamples.merged (merge_samples grouped base)
    ]
