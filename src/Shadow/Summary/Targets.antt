-- ===== src/Shadow/Summary/Targets.antt =====
-- The accumulators of `SummarizeShadowResults`, against statistics of the differences one by one.
use go_rocketmq_dashboard.Base.{
  ℕ, ◌+◌, ◌/◌, ◌≡◌, refl, ap, ◌∙◌, not, Option, none, some, List, [], ◌∷◌, ◌++◌, map, append-nil,
  append_assoc, if◌then◌else◌, ltb, ◌==◌, ==→≡, nat_eq, text_eq, length, count, filter,
  filter-append, length-append, count-append, arith, inl, inr, Bool-cases,
}
use mathlib.Core.Path.{subst}
use go_rocketmq_dashboard.Base.Dict.{Dict, lookup, lookup-insert}
use go_rocketmq_dashboard.Base.Text.{Text}
use go_rocketmq_dashboard.Shadow.Compare.{ShadowDiff}
use go_rocketmq_dashboard.Shadow.Summary.{
  ShadowTargetStats, ShadowTargetAccumulator, ShadowResult, Summing, shadow_p95_duration,
  empty_accumulator, add_diff, found_or_empty, sum_diff, sum_diffs, sum_results, target_stats,
  summarize_shadow_results,
}

abbrev pub all_diffs : List ShadowResult → List ShadowDiff
all_diffs [] = []
all_diffs (result ∷ results) = result.diffs ++ all_diffs results

-- The differences of one provider.
abbrev pub of_target : Text → List ShadowDiff → List ShadowDiff
of_target target = filter (λ diff. diff.target == target)

abbrev pub mismatched : List ShadowDiff → ℕ
mismatched = count (λ diff. not diff.matched)

abbrev pub sum_of : List ℕ → ℕ
sum_of [] = 0
sum_of (n ∷ l) = n + sum_of l

abbrev pub greatest : List ℕ → ℕ
greatest [] = 0
greatest (n ∷ l) = if ltb n (greatest l) then greatest l else n

abbrev pub durations_of : List ShadowDiff → List ℕ
durations_of = map (λ diff. diff.duration)

accumulated : List ShadowDiff → ShadowTargetAccumulator
accumulated diffs = record {
  samples = length diffs;
  mismatches = mismatched diffs;
  max_duration = greatest (durations_of diffs);
  total = sum_of (durations_of diffs);
  durations = durations_of diffs;
}

sum_of-snoc :
    (diffs : List ShadowDiff) (diff : ShadowDiff)
    → sum_of (durations_of diffs) + diff.duration ≡ sum_of (durations_of (diffs ++ (diff ∷ [])))
sum_of-snoc [] diff = omega arith
sum_of-snoc (d ∷ diffs) diff = omega (arith, sum_of-snoc diffs diff)

greatest-snoc :
    (diffs : List ShadowDiff) (diff : ShadowDiff)
    → (if ltb (greatest (durations_of diffs)) diff.duration
        then diff.duration
        else greatest (durations_of diffs))
      ≡ greatest (durations_of (diffs ++ (diff ∷ [])))
greatest-snoc [] diff = ground arith
greatest-snoc (d ∷ diffs) diff = ground (arith, greatest-snoc diffs diff)

durations_of-snoc :
    (diffs : List ShadowDiff) (diff : ShadowDiff)
    → durations_of diffs ++ (diff.duration ∷ []) ≡ durations_of (diffs ++ (diff ∷ []))
durations_of-snoc [] diff = refl
durations_of-snoc (d ∷ diffs) diff = ap (◌∷◌ d.duration) (durations_of-snoc diffs diff)

mismatched-snoc :
    (diffs : List ShadowDiff) (diff : ShadowDiff)
    → mismatched diffs + (if diff.matched then 0 else 1) ≡ mismatched (diffs ++ (diff ∷ []))
mismatched-snoc diffs diff = ground (arith, count-append (λ d. not d.matched) diffs (diff ∷ []))

length-snoc :
    (diffs : List ShadowDiff) (diff : ShadowDiff) → length diffs + 1 ≡ length (diffs ++ (diff ∷ []))
length-snoc diffs diff = omega (arith, length-append diffs (diff ∷ []))

add_diff-accumulated :
    (diffs : List ShadowDiff) (diff : ShadowDiff)
    → add_diff (accumulated diffs) diff ≡ accumulated (diffs ++ (diff ∷ []))
unfolding add_diff accumulated
add_diff-accumulated diffs diff = λ i. record {
  samples = length-snoc diffs diff i;
  mismatches = mismatched-snoc diffs diff i;
  max_duration = greatest-snoc diffs diff i;
  total = sum_of-snoc diffs diff i;
  durations = durations_of-snoc diffs diff i;
}

entry : List ShadowDiff → Option ShadowTargetAccumulator
entry [] = none
entry (diff ∷ diffs) = some (accumulated (diff ∷ diffs))

found_or_empty-entry : (diffs : List ShadowDiff) → found_or_empty (entry diffs) ≡ accumulated diffs
unfolding entry found_or_empty empty_accumulator accumulated
found_or_empty-entry [] = refl
found_or_empty-entry (diff ∷ diffs) = refl

entry-snoc :
    (diffs : List ShadowDiff) (diff : ShadowDiff)
    → some (accumulated (diffs ++ (diff ∷ []))) ≡ entry (diffs ++ (diff ∷ []))
unfolding entry
entry-snoc [] diff = refl
entry-snoc (d ∷ diffs) diff = refl

-- The state after the differences `seen`.
record HasSummed (s : Summing) (seen : List ShadowDiff) : Type 0 where
  targets : s.targets ≡ length seen
  mismatches : s.mismatches ≡ mismatched seen
  entries : (target : Text) → lookup target s.accumulators ≡ entry (of_target target seen)

sum_diff-HasSummed :
    (s : Summing) (seen : List ShadowDiff) (diff : ShadowDiff)
    → HasSummed s seen
    → HasSummed (sum_diff s diff) (seen ++ (diff ∷ []))
unfolding sum_diff
sum_diff-HasSummed s seen diff h = record {
  targets = rw h.targets (length-snoc seen diff);
  mismatches = rw h.mismatches (mismatched-snoc seen diff);
  entries = λ target. elim (Bool-cases (diff.target == target)) [
    | inl e ↦
        rw
          (
            lookup-insert,
            filter-append,
            e,
            h.entries diff.target,
            found_or_empty-entry,
            add_diff-accumulated,
          )
          (ap (λ t. some (accumulated (of_target t seen ++ (diff ∷ []))))
              (==→≡ diff.target target e)
            ∙ entry-snoc (of_target target seen) diff)
    | inr e ↦
        rw (lookup-insert, filter-append, e, append-nil (of_target target seen)) (h.entries target)
  ];
}

sum_diffs-HasSummed :
    (s : Summing) (seen diffs : List ShadowDiff)
    → HasSummed s seen
    → HasSummed (sum_diffs s diffs) (seen ++ diffs)
unfolding sum_diffs
sum_diffs-HasSummed s seen [] h = rw (append-nil seen) h
sum_diffs-HasSummed s seen (diff ∷ diffs) h =
    subst (HasSummed (sum_diffs (sum_diff s diff) diffs)) (append_assoc seen (diff ∷ []) diffs) (
      sum_diffs-HasSummed (sum_diff s diff) (seen ++ (diff ∷ [])) diffs
        (sum_diff-HasSummed s seen diff h))

sum_results-HasSummed :
    (s : Summing) (seen : List ShadowDiff) (results : List ShadowResult)
    → HasSummed s seen
    → HasSummed (sum_results s results) (seen ++ all_diffs results)
unfolding sum_results
sum_results-HasSummed s seen [] h = rw (append-nil seen) h
sum_results-HasSummed s seen (result ∷ results) h =
    subst (HasSummed (sum_results (sum_diffs s result.diffs) results))
      (append_assoc seen result.diffs (all_diffs results))
      (sum_results-HasSummed (sum_diffs s result.diffs) (seen ++ result.diffs) results
        (sum_diffs-HasSummed s seen result.diffs h))

map_stats : Option ShadowTargetAccumulator → Option ShadowTargetStats
map_stats none = none
map_stats (some acc) = some (target_stats acc)

lookup-map :
    (target : Text) (m : Dict Text ShadowTargetAccumulator)
    → lookup target (map (λ (t, acc). (t, target_stats acc)) m) ≡ map_stats (lookup target m)
unfolding lookup map_stats
lookup-map target [] = refl
lookup-map target ((t, acc) ∷ m) = ground (arith, lookup-map target m)

-- What the summary should hold for the differences of one provider, in the order of the results.
pub stats_of : List ShadowDiff → Option ShadowTargetStats
stats_of [] = none
stats_of (diff ∷ diffs) =
    let l = diff ∷ diffs in
    some (record {
      samples = length l;
      mismatches = mismatched l;
      avg_duration = sum_of (durations_of l) / length l;
      max_duration = greatest (durations_of l);
      p95_duration = shadow_p95_duration (durations_of l);
    })

stats-entry : (diffs : List ShadowDiff) → map_stats (entry diffs) ≡ stats_of diffs
unfolding entry map_stats target_stats accumulated stats_of
stats-entry [] = refl
stats-entry (diff ∷ diffs) = ground arith

-- The summary counts every difference of every result once, and its entry for a provider holds the
-- number, the mismatches, the mean, the greatest and the percentile of exactly the differences that
-- name the provider; a provider that no difference names has no entry.
pub summarize_shadow_results_lem :
    (results : List ShadowResult)
    → ((summarize_shadow_results results).commands ≡ length results)
      × ((summarize_shadow_results results).targets ≡ length (all_diffs results))
      × ((summarize_shadow_results results).mismatches ≡ mismatched (all_diffs results))
      × ((target : Text)
          → lookup target (summarize_shadow_results results).by_target
            ≡ stats_of (of_target target (all_diffs results)))
unfolding summarize_shadow_results entry lookup
summarize_shadow_results_lem results =
    let start : Summing = record { targets = 0; mismatches = 0; accumulators = [] } in
    let h =
      sum_results-HasSummed start [] results
        (record { targets = refl; mismatches = refl; entries = λ target. refl }) in
    (
      refl,
      h.targets,
      h.mismatches,
      λ target.
          rw (lookup-map, h.entries target) (stats-entry (of_target target (all_diffs results))),
    )
