-- ===== src/Shadow/Summary.antt =====
-- shadow_summary.go: the statistics over the differences that comparisons report. Durations are
-- nanoseconds that are not negative, and their sum stays below 2^63, which is 292 years.
pub mod Percentile
pub mod Targets
use go_rocketmq_dashboard.Base.{
  ℕ, zero, suc, ◌+◌, ◌-◌, ◌*◌, ◌/◌, Bool, true, false, not, Option, none, some, List, [], ◌∷◌, ◌++◌,
  if◌then◌else◌, ltb, ◌==◌, nat_eq, text_eq, length, get_elem?, map,
}
use go_rocketmq_dashboard.Base.Dict.{Dict, lookup, insert}
use go_rocketmq_dashboard.Base.Sort.{sort_stable}
use go_rocketmq_dashboard.Base.Text.{Text}
use go_rocketmq_dashboard.Shadow.Compare.{ShadowDiff}

pub record ShadowTargetStats : Type 0 where
  pub samples : ℕ
  pub mismatches : ℕ
  pub avg_duration : ℕ
  pub max_duration : ℕ
  pub p95_duration : ℕ

pub record ShadowSummary : Type 0 where
  pub commands : ℕ
  pub targets : ℕ
  pub mismatches : ℕ
  pub by_target : Dict Text ShadowTargetStats

pub record ShadowTargetAccumulator : Type 0 where
  pub samples : ℕ
  pub mismatches : ℕ
  pub max_duration : ℕ
  pub total : ℕ
  pub durations : List ℕ

-- `index` of `shadowP95Duration`, the position plus one.
pub p95_index : ℕ → ℕ
p95_index n = let index = (95 * n + 99) / 100 in if ltb index 1 then 1 else index

-- An index out of range, at which the source would panic, is 0 here.
elem_or_zero : Option ℕ → ℕ
elem_or_zero (some d) = d
elem_or_zero none = 0

pub shadow_p95_duration : List ℕ → ℕ
unfolding elem_or_zero
shadow_p95_duration [] = 0
shadow_p95_duration durations =
    elem_or_zero (get_elem? (sort_stable ltb durations) (p95_index (length durations) - 1))

pub empty_accumulator : ShadowTargetAccumulator
empty_accumulator = record {
  samples = 0;
  mismatches = 0;
  max_duration = 0;
  total = 0;
  durations = [];
}

pub add_diff : ShadowTargetAccumulator → ShadowDiff → ShadowTargetAccumulator
add_diff acc diff = record {
  samples = acc.samples + 1;
  mismatches = acc.mismatches + (if diff.matched then 0 else 1);
  max_duration = if ltb acc.max_duration diff.duration then diff.duration else acc.max_duration;
  total = acc.total + diff.duration;
  durations = acc.durations ++ (diff.duration ∷ []);
}

pub found_or_empty : Option ShadowTargetAccumulator → ShadowTargetAccumulator
unfolding empty_accumulator
found_or_empty (some acc) = acc
found_or_empty none = empty_accumulator

-- What the two loops keep between iterations.
pub record Summing : Type 0 where
  pub targets : ℕ
  pub mismatches : ℕ
  pub accumulators : Dict Text ShadowTargetAccumulator

-- The body of the inner loop.
pub sum_diff : Summing → ShadowDiff → Summing
unfolding add_diff found_or_empty
sum_diff s diff = record {
  targets = s.targets + 1;
  mismatches = s.mismatches + (if diff.matched then 0 else 1);
  accumulators =
      insert diff.target (add_diff (found_or_empty (lookup diff.target s.accumulators)) diff)
        s.accumulators;
}

pub sum_diffs : Summing → List ShadowDiff → Summing
sum_diffs s [] = s
sum_diffs s (diff ∷ diffs) = sum_diffs (sum_diff s diff) diffs

-- A result of a comparison, of which the summary reads the differences.
pub record ShadowResult : Type 0 where
  pub command : Text
  pub args : List Text
  pub diffs : List ShadowDiff

pub sum_results : Summing → List ShadowResult → Summing
sum_results s [] = s
sum_results s (result ∷ results) = sum_results (sum_diffs s result.diffs) results

pub target_stats : ShadowTargetAccumulator → ShadowTargetStats
target_stats acc = record {
  samples = acc.samples;
  mismatches = acc.mismatches;
  avg_duration = if ltb 0 acc.samples then acc.total / acc.samples else 0;
  max_duration = acc.max_duration;
  p95_duration = shadow_p95_duration acc.durations;
}

pub summarize_shadow_results : List ShadowResult → ShadowSummary
summarize_shadow_results results =
    let s = sum_results (record { targets = 0; mismatches = 0; accumulators = [] }) results in
    record {
      commands = length results;
      targets = s.targets;
      mismatches = s.mismatches;
      by_target = map (λ (target, acc). (target, target_stats acc)) s.accumulators;
    }
