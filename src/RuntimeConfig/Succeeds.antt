-- ===== src/RuntimeConfig/Succeeds.antt =====
-- A whole request that succeeds: each of its nodes has the new value, and no other node is changed.
use go_rocketmq_dashboard.Base.{
  Option-cases, ◌+◌, ◌≤◌, ◌≡◌, ◌≢◌, ◌∙◌, refl, sym, ap, false, Bool-cases, inl, inr, ◌==◌, text_eq,
  List, [], ◌∷◌, ◌++◌, map, Option, none, some, All, All-imp, contains, count, is_nil,
  if◌then◌else◌, arith,
}
use go_rocketmq_dashboard.Base.{==→≡}
use mathlib.Core.Path.{subst}
use go_rocketmq_dashboard.Base.Sort.{count-sort_stable}
use go_rocketmq_dashboard.Base.Text.{Text, text_less, trim_space, to_lower}
use go_rocketmq_dashboard.RuntimeConfig.Targets.{
  ClusterFeatureReport, unique_targets, unique_sorted_runtime_targets, report_targets,
}
use go_rocketmq_dashboard.RuntimeConfig.Nodes.{Reply, read_runtime_config_value}
use go_rocketmq_dashboard.RuntimeConfig.Apply.{
  RuntimePendingChange, RuntimeConfigChangeResult, Applying, change_result, apply_changes,
}
use go_rocketmq_dashboard.RuntimeConfig.Request.{
  RuntimeConfigChangeRequest, RequestRefusal, FeatureReply, report, no_report, Provider, refused,
  ran, Targeted, targets, untargeted, Prepared, ready, stopped, invalid_request, targets_of_reply,
  runtime_config_targets, prepare_change, prepare_changes, run_prepared, run_targeted,
  apply_runtime_config_change,
}
use go_rocketmq_dashboard.RuntimeConfig.Laws.{CommandLaws}
use go_rocketmq_dashboard.RuntimeConfig.Rollback.{IsRestorable, change_targets}
use go_rocketmq_dashboard.RuntimeConfig.Restores.{
  FeaturesKeep, prepare_changes_lem, prepare_changes_keeps, is_ready, is_stopped, prepared_cases,
  add_ready_inv, ready_inj, stopped-ne-ready, prepare_change_inv, runtime_config_targets_keeps,
}
use go_rocketmq_dashboard.RuntimeConfig.Applied.{
  AtMostOnce, AllApplied, reported, apply_changes-AllApplied,
}

count-unique_targets :
    (seen vs : List Text) (t : Text)
    → count (λ x. x == t) (unique_targets seen vs) + (if contains seen t then 1 else 0) ≤ 1
unfolding unique_targets
count-unique_targets seen [] t = ground arith
count-unique_targets seen (v ∷ vs) t =
    let kept = count-unique_targets (trim_space v ∷ seen) vs t in
    let skipped = count-unique_targets seen vs t in ground arith

-- No node is named twice.
unique_sorted-AtMostOnce : (values : List Text) → AtMostOnce (unique_sorted_runtime_targets values)
unfolding unique_sorted_runtime_targets
unique_sorted-AtMostOnce values t = omega (
  arith,
  count-sort_stable text_less (λ x. x == t) (unique_targets [] values),
  count-unique_targets [] values t,
)

report_targets-once :
    (r : ClusterFeatureReport) (scope requested key : Text)
    → AtMostOnce (report_targets r scope requested key)
unfolding report_targets
report_targets-once r scope requested key = unique_sorted-AtMostOnce _

report_targets-AtMostOnce :
    (scope requested key : Text) (reply : FeatureReply) (nodes : List Text)
    → targets_of_reply scope requested key reply ≡ targets nodes
    → AtMostOnce nodes
unfolding targets_of_reply
report_targets-AtMostOnce scope requested key (no_report message) nodes e = cc
report_targets-AtMostOnce scope requested key (report r) nodes e =
    elim (Bool-cases (is_nil (report_targets r scope requested key))) [
      | inl none_left ↦ ground arith
      | inr some_left ↦
          let same : report_targets r scope requested key ≡ nodes = ground arith in
          subst AtMostOnce same (report_targets-once r scope requested key)
    ]

-- Each reported node has its value, and a node that is not reported has the one it had.
abbrev pub IsDone : {W : Type 0} → (W → Text → Text) → (Text → Text) → Applying W → Type 0
IsDone view before a =
    All (λ (r : RuntimeConfigChangeResult). view a.world r.target ≡ r.value) a.payload.results
    × ((asked : Text)
        → contains (map (λ (r : RuntimeConfigChangeResult). r.target) a.payload.results) asked
          ≡ false
        → view a.world asked ≡ before asked)

module _ {W : Type 0} (reformat_float : Text → Option Text)
    (run_command : List Text → W → W × Reply) (scope key name_server : Text)
    (view : W → Text → Text) (Accepts : Text → Text → Type 0)
    (laws : CommandLaws run_command scope key name_server view Accepts) where
  prepared_targets :
      (value : Text) (nodes : List Text) (w : W) (pending : List RuntimePendingChange)
      → (prepare_changes reformat_float run_command scope key value nodes w).1 ≡ ready pending
      → change_targets pending ≡ nodes
  unfolding prepare_changes
  prepared_targets value [] w pending e = ap change_targets (sym (ready_inj [] pending e))
  prepared_targets value (target ∷ rest) w pending e =
      let read = read_runtime_config_value run_command scope target key w in
      elim (prepared_cases
        (prepare_change reformat_float run_command scope key value target read.1)) [
          | is_stopped refusal o ↦
              absurd (stopped-ne-ready refusal pending (rw (o, prepare_changes) at e))
          | is_ready first o ↦
              let parts =
                add_ready_inv first
                  (prepare_changes reformat_float run_command scope key value rest read.0).1 pending
                  (rw (o, prepare_changes) at e) in
              let one =
                prepare_change_inv reformat_float run_command scope key name_server view Accepts
                  laws value target read.1 first o in
              ap change_targets (sym parts.2)
              ∙ ap (λ l. change_targets (l ++ parts.0)) one.3
              ∙ ap (◌∷◌ target) (prepared_targets value rest read.0 parts.0 parts.1)
        ]

  reported-All :
      (w : W) (pending : List RuntimePendingChange)
      → All (λ c. view w c.target ≡ c.value) pending
      → All
          (λ (r : RuntimeConfigChangeResult). view w r.target ≡ r.value)
          (map (reported run_command scope key name_server view Accepts laws) pending)
  unfolding change_result
  reported-All w [] _ = tt
  reported-All w (c ∷ pending) (h, t) = (h, reported-All w pending t)

  reported_targets :
      (pending : List RuntimePendingChange)
      → map
          (λ (r : RuntimeConfigChangeResult). r.target)
          (map (reported run_command scope key name_server view Accepts laws) pending)
        ≡ change_targets pending
  unfolding change_result
  reported_targets [] = refl
  reported_targets (c ∷ pending) = ap (◌∷◌ c.target) (reported_targets pending)

  results-IsDone :
      (before : Text → Text) (pending : List RuntimePendingChange) (w : W) (a : Applying W)
      → ((t : Text) → view w t ≡ before t)
      → AllApplied run_command scope key name_server view Accepts laws pending [] w a
      → IsDone view before a
  results-IsDone before pending w a same (listed, outside, done) = (
    subst (All (λ (r : RuntimeConfigChangeResult). view a.world r.target ≡ r.value)) (sym listed)
        (reported-All a.world pending done),
    λ asked h.
        outside asked (
          subst (λ l. contains l asked ≡ false)
            (ap (map (λ (r : RuntimeConfigChangeResult). r.target)) listed
              ∙ reported_targets pending)
            h)
        ∙ same asked,
  )

  prepared-IsDone :
      (before : Text → Text) (p : W × Prepared) (nodes : List Text) (a : Applying W)
      → ((t : Text) → view p.0 t ≡ before t)
      → ((pending : List RuntimePendingChange)
          → p.1 ≡ ready pending
          → (change_targets pending ≡ nodes) × All (IsRestorable Accepts before) pending)
      → AtMostOnce nodes
      → run_prepared reformat_float run_command scope key name_server p ≡ ran a
      → a.failure ≡ none
      → IsDone view before a
  unfolding run_prepared
  prepared-IsDone before (w, stopped refusal) nodes a same facts once e ok = cc
  prepared-IsDone before (w, ready pending) nodes a same facts once e ok =
      let here = facts pending refl in
      let after = apply_changes run_command scope key name_server pending [] [] w in
      let equal : after ≡ a = cc in
      subst (IsDone view before) equal (
        results-IsDone before pending w after same (
          apply_changes-AllApplied run_command scope key name_server view Accepts laws pending [] []
            w (subst AtMostOnce (sym here.0) once)
            (All-imp (IsRestorable Accepts before) (λ c. c.previous ≡ view w c.target)
              (λ c r. r.0 ∙ sym (same c.target)) pending here.1)
            (ap (λ x. x.failure) equal ∙ ok)))

  targeted-IsDone :
      (before : Text → Text) (value : Text) (t : W × Targeted) (a : Applying W)
      → ((asked : Text) → view t.0 asked ≡ before asked)
      → ((target : Text) → Accepts target (before target))
      → ((nodes : List Text) → t.1 ≡ targets nodes → AtMostOnce nodes)
      → run_targeted reformat_float run_command scope key value name_server t ≡ ran a
      → a.failure ≡ none
      → IsDone view before a
  unfolding run_targeted
  targeted-IsDone before value (w, untargeted refusal) a same takes once e ok = cc
  targeted-IsDone before value (w, targets nodes) a same takes once e ok =
      let p = prepare_changes reformat_float run_command scope key value nodes w in
      prepared-IsDone before p nodes a
        (λ t.
          prepare_changes_keeps reformat_float run_command scope key name_server view Accepts laws
            value nodes w t
          ∙ same t)
        (λ pending o. (
          prepared_targets value nodes w pending o,
          prepare_changes_lem reformat_float run_command scope key name_server view Accepts laws
              before value nodes w pending same takes o,
        ))
        (once nodes refl) e ok

refused-ne-ran :
    {W : Type 0} (refusal : RequestRefusal) (w : W) (a : Applying W) → refused refusal w ≢ ran a
refused-ne-ran refusal w a e = cc

runtime_config_targets-AtMostOnce :
    {W : Type 0} (features : Option (W → W × FeatureReply)) (scope requested key : Text) (w : W)
    (nodes : List Text)
    → (runtime_config_targets features scope requested key w).1 ≡ targets nodes
    → AtMostOnce nodes
unfolding runtime_config_targets
runtime_config_targets-AtMostOnce none scope requested key w nodes e = cc
runtime_config_targets-AtMostOnce (some ask) scope requested key w nodes e =
    report_targets-AtMostOnce scope requested key (ask w).1 nodes e

apply_runtime_config_change-IsDone :
    {W : Type 0} (reformat_float : Text → Option Text) (provider : Provider W) (name_server : Text)
    (request : RuntimeConfigChangeRequest) (w : W) (run_command : List Text → W → W × Reply)
    (view : W → Text → Text) (Accepts : Text → Text → Type 0) (a : Applying W)
    → provider.commands ≡ some run_command
    → CommandLaws run_command
        (to_lower (trim_space request.scope))
        (trim_space request.key)
        name_server
        view
        Accepts
    → FeaturesKeep view provider
    → ((target : Text) → Accepts target (view w target))
    → apply_runtime_config_change reformat_float provider name_server request w ≡ ran a
    → a.failure ≡ none
    → IsDone view (view w) a
unfolding apply_runtime_config_change
apply_runtime_config_change-IsDone reformat_float provider name_server request w run_command view
      Accepts a commands laws keep takes e ok =
    let scope = to_lower (trim_space request.scope) in
    let key = trim_space request.key in
    let asked = trim_space request.target in
    elim (Option-cases (invalid_request request)) [
      | inr (refusal, o) ↦
          absurd (refused-ne-ran refusal w a (rw (o, apply_runtime_config_change) at e))
      | inl o ↦
          targeted-IsDone reformat_float run_command scope key name_server view Accepts laws
            (view w) request.value (runtime_config_targets provider.features scope asked key w) a
            (λ t.
              runtime_config_targets_keeps view provider.features scope asked key w t
                (λ ask f. keep ask w t f))
            takes
            (λ nodes. runtime_config_targets-AtMostOnce provider.features scope asked key w nodes)
            (rw (o, commands, apply_runtime_config_change) at e) ok
    ]

-- The value that the results name for a node, or the given one.
abbrev pub reported_value : Text → Text → List RuntimeConfigChangeResult → Text
reported_value other asked [] = other
reported_value other asked (r ∷ results) =
    if r.target == asked then r.value else reported_value other asked results

value_as_reported :
    (after : Text → Text) (other asked : Text) (results : List RuntimeConfigChangeResult)
    → All (λ (r : RuntimeConfigChangeResult). after r.target ≡ r.value) results
    → (contains (map (λ (r : RuntimeConfigChangeResult). r.target) results) asked ≡ false
        → after asked ≡ other)
    → after asked ≡ reported_value other asked results
value_as_reported after other asked [] _ outside = outside refl
value_as_reported after other asked (r ∷ results) (h, t) outside =
    elim (Bool-cases (r.target == asked)) [
      | inl here ↦ rw here (subst (λ x. after x ≡ r.value) (==→≡ r.target asked here) h)
      | inr elsewhere ↦
          rw elsewhere
            (value_as_reported after other asked results t (λ e. outside (rw elsewhere e)))
    ]

-- After a request that runs with no failure, each node of its results has the value that the result
-- names, and every other node has the value that it had before, where the commands keep their laws,
-- a query for the feature report changes no value, and each node accepts the value that it had.
pub apply_runtime_config_change-reports :
    {W : Type 0} (reformat_float : Text → Option Text) (provider : Provider W) (name_server : Text)
    (request : RuntimeConfigChangeRequest) (w : W) (run_command : List Text → W → W × Reply)
    (view : W → Text → Text) (Accepts : Text → Text → Type 0) (a : Applying W) (asked : Text)
    → provider.commands ≡ some run_command
    → CommandLaws run_command
        (to_lower (trim_space request.scope))
        (trim_space request.key)
        name_server
        view
        Accepts
    → FeaturesKeep view provider
    → ((target : Text) → Accepts target (view w target))
    → apply_runtime_config_change reformat_float provider name_server request w ≡ ran a
    → a.failure ≡ none
    → view a.world asked ≡ reported_value (view w asked) asked a.payload.results
apply_runtime_config_change-reports reformat_float provider name_server request w run_command view
      Accepts a asked commands laws keep takes e ok =
    let done =
      apply_runtime_config_change-IsDone reformat_float provider name_server request w run_command
        view Accepts a commands laws keep takes e ok in
    value_as_reported (view a.world) (view w asked) asked a.payload.results done.0 (done.1 asked)
