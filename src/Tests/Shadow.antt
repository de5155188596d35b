-- ===== src/Tests/Shadow.antt =====
-- Shadow plans, comparisons and statistics at concrete inputs.
use go_rocketmq_dashboard.Base.{
  ℕ, ◌+◌, ◌*◌, ◌-◌, ◌≤◌, ◌<◌, ◌≡◌, ◌↔◌, refl, Bool, true, false, not, none, some, List, [], ◌∷◌,
  ◌++◌, map, filter, length, get_elem?, count, leb, ltb, All, text_eq, nat_eq,
}
use go_rocketmq_dashboard.Base.Dict
use go_rocketmq_dashboard.Base.Int.{pos}
use go_rocketmq_dashboard.Base.Sort.{sort_stable}
use go_rocketmq_dashboard.Base.Text.{
  Text, text, trim_space, trim_left, trim_right, is_space, cons_trimmed,
}
use go_rocketmq_dashboard.Shadow.Plan.{
  is_shadow_provider, ShadowSample, ShadowSampleFixture, MergedSamples, validate_shadow_plan,
  plan_shadow_batch, apply_shadow_fixture_overrides,
}
use go_rocketmq_dashboard.Shadow.Plan.Valid.{
  IsValidSample, has_placeholder, validate_shadow_plan-iff-All, plan_shadow_batch_divides,
}
use go_rocketmq_dashboard.Shadow.Plan.Overrides.{validate-apply_shadow_fixture_overrides}
use go_rocketmq_dashboard.Shadow.Compare.Files.{SameFiles}
use go_rocketmq_dashboard.Shadow.Compare.Matched.{compare_shadow_output-matched}
use go_rocketmq_dashboard.Shadow.Compare.{ShadowComparableOutput, ShadowDiff, compare_shadow_output}
use go_rocketmq_dashboard.Shadow.Summary.{
  ShadowResult, p95_index, shadow_p95_duration, summarize_shadow_results,
}
use go_rocketmq_dashboard.Shadow.Summary.Percentile.{shadow_p95_duration-nearest_rank}
use go_rocketmq_dashboard.Shadow.Summary.Targets.{
  all_diffs, of_target, mismatched, stats_of, summarize_shadow_results_lem,
}

abbrev providers : List Text
providers = text "official" ∷ text "native" ∷ []

abbrev template : ShadowSample
template = record {
  name = text "known-message";
  args = text "queryMsgById" ∷ text "<known-message-id>" ∷ [];
  providers = providers;
  serial_targets = false;
  min_samples = pos 20;
  require_p95 = true;
  notes = [];
}

abbrev concrete : ShadowSample
concrete = record template { name = text "cluster-list"; args = text "clusterList" ∷ [] }

abbrev samples : List ShadowSample
samples = template ∷ concrete ∷ []

samples-All : All IsValidSample samples
unfolding text_eq nat_eq trim_space trim_left trim_right is_space cons_trimmed is_shadow_provider
samples-All = (
  record {
    has_name = λ e. cc;
    has_args = λ e. cc;
    has_official = refl;
    has_shadow = refl;
    positive = refl;
    enough = λ _. refl;
  },
  (
    record {
      has_name = λ e. cc;
      has_args = λ e. cc;
      has_official = refl;
      has_shadow = refl;
      positive = refl;
      enough = λ _. refl;
    },
    tt,
  ),
)

validate_shadow_plan-iff-All_example :
    (validate_shadow_plan samples ≡ none) ↔ All IsValidSample samples
validate_shadow_plan-iff-All_example = validate_shadow_plan-iff-All samples

samples_valid : validate_shadow_plan samples ≡ none
samples_valid = (validate_shadow_plan-iff-All samples).1 samples-All

abbrev quote : Text → Text
quote s = text "\"" ++ s ++ text "\""

plan_shadow_batch_divides_example :
    ((plan_shadow_batch quote samples).executable ≡ filter (λ s. not (has_placeholder s)) samples)
    × (map (λ s. s.sample) (plan_shadow_batch quote samples).skipped
        ≡ filter has_placeholder samples)
    × ((plan_shadow_batch quote samples).executable_samples
        ≡ length (plan_shadow_batch quote samples).executable)
    × ((plan_shadow_batch quote samples).skipped_samples
        ≡ length (plan_shadow_batch quote samples).skipped)
    × ((plan_shadow_batch quote samples).executable_samples
          + (plan_shadow_batch quote samples).skipped_samples
        ≡ (plan_shadow_batch quote samples).total_samples)
    × ((plan_shadow_batch quote samples).errors ≡ [])
plan_shadow_batch_divides_example = plan_shadow_batch_divides quote samples samples_valid

abbrev fixture : ShadowSampleFixture
fixture = record {
  name = text " known-message";
  args = text "queryMsgById" ∷ text "0A01" ∷ [];
  repeat = pos 2;
  serial_targets = true;
}

abbrev filled : ShadowSample
filled = record template { args = text "queryMsgById" ∷ text "0A01" ∷ []; serial_targets = true }

fixture_applied :
    apply_shadow_fixture_overrides samples (fixture ∷ [])
    ≡ MergedSamples.merged (filled ∷ filled ∷ concrete ∷ [])
unfolding apply_shadow_fixture_overrides text_eq trim_space trim_right trim_left is_space nat_eq
    Dict.lookup Dict.insert
fixture_applied = refl

validate-apply_shadow_fixture_overrides_example :
    validate_shadow_plan (filled ∷ filled ∷ concrete ∷ []) ≡ none
validate-apply_shadow_fixture_overrides_example =
    validate-apply_shadow_fixture_overrides samples (filled ∷ filled ∷ concrete ∷ []) (fixture ∷ [])
      samples_valid fixture_applied

abbrev output : ShadowComparableOutput
output = record {
  stdout = text "ok";
  stderr = [];
  artifacts = (text "body.txt", text "hello") ∷ (text "meta.txt", text "{}") ∷ [];
  error = [];
}

abbrev reordered : ShadowComparableOutput
reordered = record output {
  artifacts = (text "meta.txt", text "{}") ∷ (text "body.txt", text "hello") ∷ [];
}

compare_shadow_output-matched_example :
    ((compare_shadow_output output reordered).matched ≡ true) ↔ (
      (output.stdout ≡ output.stdout)
      × (output.stderr ≡ output.stderr)
      × (output.error ≡ output.error)
      × SameFiles output.artifacts reordered.artifacts)
unfolding Dict.lookup text_eq nat_eq
compare_shadow_output-matched_example =
    compare_shadow_output-matched output reordered (refl, (refl, tt)) (refl, (refl, tt))
      ((λ e. cc), ((λ e. cc), tt))

-- Two files of different names compare as equal where both are empty.
empty_files_match :
    (compare_shadow_output
      (record output { artifacts = (text "a.txt", []) ∷ [] })
      (record output { artifacts = (text "b.txt", []) ∷ [] })).matched
    ≡ true
unfolding compare_shadow_output text_eq nat_eq Dict.lookup
empty_files_match = refl

abbrev durations : List ℕ
durations = 30 ∷ 10 ∷ 20 ∷ []

shadow_p95_duration-nearest_rank_example :
    (get_elem? (sort_stable ltb durations) (p95_index (length durations) - 1)
      ≡ some (shadow_p95_duration durations))
    × (95 * length durations ≤ 100 * count (λ d. leb d (shadow_p95_duration durations)) durations)
    × (100 * count (λ d. ltb d (shadow_p95_duration durations)) durations < 95 * length durations)
shadow_p95_duration-nearest_rank_example = shadow_p95_duration-nearest_rank durations (λ e. cc)

abbrev diff : Text → Bool → ℕ → ShadowDiff
diff target matched duration = record {
  target = target;
  matched = matched;
  stdout_different = not matched;
  stderr_different = false;
  error_different = false;
  artifacts_different = false;
  duration = duration;
}

abbrev results : List ShadowResult
results =
    record {
      command = text "clusterList";
      args = [];
      diffs = diff (text "native") true 5 ∷ diff (text "auto") false 9 ∷ [];
    }
    ∷ record { command = text "topicList"; args = []; diffs = diff (text "native") false 7 ∷ [] }
    ∷ []

summarize_shadow_results_lem_example :
    ((summarize_shadow_results results).commands ≡ length results)
    × ((summarize_shadow_results results).targets ≡ length (all_diffs results))
    × ((summarize_shadow_results results).mismatches ≡ mismatched (all_diffs results))
    × ((target : Text)
        → Dict.lookup target (summarize_shadow_results results).by_target
          ≡ stats_of (of_target target (all_diffs results)))
summarize_shadow_results_lem_example = summarize_shadow_results_lem results
