-- ===== src/RuntimeConfig/Restores.antt =====
-- Whole requests of `applyRuntimeConfigChange` that are refused, or that fail and are rolled back.
use go_rocketmq_dashboard.Base.{
  Option-cases, inl, inr, ◌≡◌, ◌≢◌, ◌∙◌, refl, Bool, true, false, text_eq, List, [], ◌∷◌, ◌++◌,
  Option, none, some, All, All-append,
}
use mathlib.Core.Path.{subst}
use go_rocketmq_dashboard.Base.Text.{Text, trim_space, to_lower}
use go_rocketmq_dashboard.RuntimeConfig.Values.{
  NormalizedValue, accepted, must_be, normalize_runtime_config_value,
}
use go_rocketmq_dashboard.RuntimeConfig.Nodes.{
  Reply, ReadResult, unread, not_found, found, read_runtime_config_value,
}
use go_rocketmq_dashboard.RuntimeConfig.Apply.{
  RuntimePendingChange, ApplyError, ApplyCause, restored, rollback_incomplete, apply_changes,
}
use go_rocketmq_dashboard.RuntimeConfig.Request.{
  RuntimeConfigChangeRequest, RequestRefusal, FeatureReply, Provider, RequestOutcome, refused, ran,
  Targeted, targets, untargeted, Prepared, ready, stopped, add_ready, invalid_request,
  runtime_config_targets, pending_change, prepare_change, prepare_changes, run_prepared,
  run_targeted, apply_runtime_config_change,
}
use go_rocketmq_dashboard.RuntimeConfig.Laws.{CommandLaws}
use go_rocketmq_dashboard.RuntimeConfig.Rollback.{IsRestorable}
use go_rocketmq_dashboard.RuntimeConfig.Failed.{IsRestored, apply_changes_lem}

-- The error says that nothing is left changed: a refusal, or a failure with a full rollback.
abbrev pub error_restores : Option ApplyError → Bool
error_restores none = false
error_restores (some (restored cause)) = true
error_restores (some (rollback_incomplete cause errors)) = false

abbrev pub claims_restored : {W : Type 0} → RequestOutcome W → Bool
claims_restored (refused refusal w) = true
claims_restored (ran a) = error_restores a.failure

restored_inv :
    (e : Option ApplyError)
    → error_restores e ≡ true
    → (why : ApplyCause) × (e ≡ some (restored why))
restored_inv none h = cc
restored_inv (some (restored why)) h = (why, refl)
restored_inv (some (rollback_incomplete cause errors)) h = cc

pub add_ready_inv :
    (first : List RuntimePendingChange) (others : Prepared) (pending : List RuntimePendingChange)
    → add_ready first others ≡ ready pending
    → (rest : List RuntimePendingChange) × (others ≡ ready rest) × (first ++ rest ≡ pending)
unfolding add_ready
add_ready_inv first (ready rest) pending e = (rest, refl, cc)
add_ready_inv first (stopped refusal) pending e = cc

pending_change_inv :
    (target previous : Text) (n : NormalizedValue) (pending : List RuntimePendingChange)
    → pending_change target previous n ≡ ready pending
    → (next : Text) × (pending ≡ record { target = target; previous = previous; value = next } ∷ [])
unfolding pending_change
pending_change_inv target previous (must_be kind) pending h = cc
pending_change_inv target previous (accepted next) pending h = (next, cc)

pub data PreparedCases (p : Prepared) : Type 0 where
  is_ready : (first : List RuntimePendingChange) → p ≡ ready first → PreparedCases p
  is_stopped : (refusal : RequestRefusal) → p ≡ stopped refusal → PreparedCases p

pub prepared_cases : (p : Prepared) → PreparedCases p
prepared_cases (ready first) = is_ready first refl
prepared_cases (stopped refusal) = is_stopped refusal refl

pub ready_inj :
    (first pending : List RuntimePendingChange) → ready first ≡ ready pending → first ≡ pending
ready_inj first pending e = cc

pub stopped-ne-ready :
    (refusal : RequestRefusal) (pending : List RuntimePendingChange)
    → stopped refusal ≢ ready pending
stopped-ne-ready refusal pending e = cc

module _ {W : Type 0} (run_command : List Text → W → W × Reply) (scope key name_server : Text)
    (view : W → Text → Text) where
  -- A request that is refused leaves every node as before; one that ran has failed with the message
  -- that the old values are restored, and they are.
  abbrev pub IsTakenBack : (Text → Text) → RequestOutcome W → Type 0
  IsTakenBack before (refused refusal w) = (asked : Text) → view w asked ≡ before asked
  IsTakenBack before (ran a) =
      (why : ApplyCause) × (a.failure ≡ some (restored why))
      × IsRestored run_command scope key name_server view before why a.world

module _ {W : Type 0} (reformat_float : Text → Option Text)
    (run_command : List Text → W → W × Reply) (scope key name_server : Text)
    (view : W → Text → Text) (Accepts : Text → Text → Type 0)
    (laws : CommandLaws run_command scope key name_server view Accepts) where
  pub prepare_change_inv :
      (value target : Text) (read : ReadResult) (pending : List RuntimePendingChange)
      → prepare_change reformat_float run_command scope key value target read ≡ ready pending
      → (previous : Text) × (next : Text) × (read ≡ found previous)
        × (pending ≡ record { target = target; previous = previous; value = next } ∷ [])
  unfolding prepare_change
  prepare_change_inv value target (unread e) pending h = cc
  prepare_change_inv value target not_found pending h = cc
  prepare_change_inv value target (found previous) pending h =
      let inv =
        pending_change_inv target previous
          (normalize_runtime_config_value reformat_float key previous value) pending h in
      (previous, inv.0, refl, inv.1)

  prepare_change_lem :
      (before : Text → Text) (value target : Text) (read : ReadResult)
      (pending : List RuntimePendingChange)
      → ((v : Text) → read ≡ found v → v ≡ before target)
      → Accepts target (before target)
      → prepare_change reformat_float run_command scope key value target read ≡ ready pending
      → All (IsRestorable Accepts before) pending
  prepare_change_lem before value target read pending sees takes e =
      let inv = prepare_change_inv value target read pending e in
      let old = sees inv.0 inv.2 in rw inv.3 ((old, rw old takes), tt)

  pub prepare_changes_keeps :
      (value : Text) (nodes : List Text) (w : W) (asked : Text)
      → view (prepare_changes reformat_float run_command scope key value nodes w).0 asked
        ≡ view w asked
  unfolding prepare_changes
  prepare_changes_keeps value [] w asked = refl
  prepare_changes_keeps value (target ∷ rest) w asked =
      let read = read_runtime_config_value run_command scope target key w in
      elim (prepared_cases
        (prepare_change reformat_float run_command scope key value target read.1)) [
          | is_stopped refusal o ↦ rw (o, prepare_changes) (laws.read_keeps target asked w)
          | is_ready first o ↦
              rw (o, prepare_changes)
                (prepare_changes_keeps value rest read.0 asked ∙ laws.read_keeps target asked w)
        ]

  pub prepare_changes_lem :
      (before : Text → Text) (value : Text) (nodes : List Text) (w : W)
      (pending : List RuntimePendingChange)
      → ((t : Text) → view w t ≡ before t)
      → ((t : Text) → Accepts t (before t))
      → (prepare_changes reformat_float run_command scope key value nodes w).1 ≡ ready pending
      → All (IsRestorable Accepts before) pending
  unfolding prepare_changes
  prepare_changes_lem before value [] w pending same takes e =
      subst (All (IsRestorable Accepts before)) (ready_inj [] pending e) tt
  prepare_changes_lem before value (target ∷ rest) w pending same takes e =
      let read = read_runtime_config_value run_command scope target key w in
      elim (prepared_cases
        (prepare_change reformat_float run_command scope key value target read.1)) [
          | is_stopped refusal o ↦
              absurd (stopped-ne-ready refusal pending (rw (o, prepare_changes) at e))
          | is_ready first o ↦
              let parts =
                add_ready_inv first
                  (prepare_changes reformat_float run_command scope key value rest read.0).1 pending
                  (rw (o, prepare_changes) at e) in
              subst (All (IsRestorable Accepts before)) parts.2 (
                All-append (IsRestorable Accepts before) first parts.0
                  (prepare_change_lem before value target read.1 first
                    (λ v found_v. laws.read_sees target v w found_v ∙ same target) (takes target) o)
                  (prepare_changes_lem before value rest read.0 parts.0
                    (λ t. laws.read_keeps target t w ∙ same t) takes parts.1))
        ]

  prepared_lem :
      (before : Text → Text) (p : W × Prepared)
      → ((t : Text) → view p.0 t ≡ before t)
      → ((pending : List RuntimePendingChange)
          → p.1 ≡ ready pending
          → All (IsRestorable Accepts before) pending)
      → claims_restored (run_prepared reformat_float run_command scope key name_server p) ≡ true
      → IsTakenBack run_command scope key name_server view before
          (run_prepared reformat_float run_command scope key name_server p)
  unfolding run_prepared
  prepared_lem before (w, stopped refusal) same restorable e = same
  prepared_lem before (w, ready pending) same restorable e =
      let after = apply_changes run_command scope key name_server pending [] [] w in
      let why = restored_inv after.failure e in
      (
        why.0,
        why.1,
        apply_changes_lem run_command scope key name_server view Accepts laws before pending [] [] w
            why.0 (restorable pending refl) (tt, λ t h. same t) why.1,
      )

  run_prepared_lem :
      (before : Text → Text) (value : Text) (nodes : List Text) (w : W)
      → ((t : Text) → view w t ≡ before t)
      → ((t : Text) → Accepts t (before t))
      → claims_restored (
          run_prepared reformat_float run_command scope key name_server
            (prepare_changes reformat_float run_command scope key value nodes w))
        ≡ true
      → IsTakenBack run_command scope key name_server view before (
          run_prepared reformat_float run_command scope key name_server
            (prepare_changes reformat_float run_command scope key value nodes w))
  run_prepared_lem before value nodes w same takes e =
      let p = prepare_changes reformat_float run_command scope key value nodes w in
      prepared_lem before p (λ t. prepare_changes_keeps value nodes w t ∙ same t)
        (λ pending o. prepare_changes_lem before value nodes w pending same takes o) e

  run_targeted_lem :
      (before : Text → Text) (value : Text) (t : W × Targeted)
      → ((a : Text) → view t.0 a ≡ before a)
      → ((a : Text) → Accepts a (before a))
      → claims_restored (run_targeted reformat_float run_command scope key value name_server t)
        ≡ true
      → IsTakenBack run_command scope key name_server view before
          (run_targeted reformat_float run_command scope key value name_server t)
  unfolding run_targeted
  run_targeted_lem before value (w, untargeted refusal) same takes e = same
  run_targeted_lem before value (w, targets nodes) same takes e =
      run_prepared_lem before value nodes w same takes e

-- A query for the feature report changes no value.
abbrev pub FeaturesKeep : {W : Type 0} → (W → Text → Text) → Provider W → Type 0
FeaturesKeep {W} view provider =
    (ask : W → W × FeatureReply) (w : W) (asked : Text)
    → provider.features ≡ some ask
    → view (ask w).0 asked ≡ view w asked

pub runtime_config_targets_keeps :
    {W : Type 0} (view : W → Text → Text) (features : Option (W → W × FeatureReply))
    (scope requested key : Text) (w : W) (asked : Text)
    → ((ask : W → W × FeatureReply) → features ≡ some ask → view (ask w).0 asked ≡ view w asked)
    → view (runtime_config_targets features scope requested key w).0 asked ≡ view w asked
unfolding runtime_config_targets
runtime_config_targets_keeps view none scope requested key w asked keeps = refl
runtime_config_targets_keeps view (some ask) scope requested key w asked keeps = keeps ask refl

-- A request that is refused leaves every node with the value that it had. After one that fails with
-- the message that the old values are restored, every node has the value that it had before; or
-- that failure is the error of a write, and every node has it but for the one of that write. This
-- is where the commands keep their laws, a query for the feature report changes no value, and each
-- node accepts the value that it had.
pub apply_runtime_config_change-restores :
    {W : Type 0} (reformat_float : Text → Option Text) (provider : Provider W) (name_server : Text)
    (request : RuntimeConfigChangeRequest) (w : W) (run_command : List Text → W → W × Reply)
    (view : W → Text → Text) (Accepts : Text → Text → Type 0)
    → provider.commands ≡ some run_command
    → CommandLaws run_command
        (to_lower (trim_space request.scope))
        (trim_space request.key)
        name_server
        view
        Accepts
    → FeaturesKeep view provider
    → ((target : Text) → Accepts target (view w target))
    → claims_restored (apply_runtime_config_change reformat_float provider name_server request w)
      ≡ true
    → IsTakenBack run_command
        (to_lower (trim_space request.scope))
        (trim_space request.key)
        name_server
        view
        (view w)
        (apply_runtime_config_change reformat_float provider name_server request w)
unfolding apply_runtime_config_change
apply_runtime_config_change-restores reformat_float provider name_server request w run_command view
      Accepts commands laws keep takes e =
    let scope = to_lower (trim_space request.scope) in
    let key = trim_space request.key in
    let nodes = runtime_config_targets provider.features scope (trim_space request.target) key w in
    let kept : (a : Text) → view nodes.0 a ≡ view w a = λ a.
      runtime_config_targets_keeps view provider.features scope (trim_space request.target) key w a
        (λ ask f. keep ask w a f) in
    elim (Option-cases (invalid_request request)) [
      | inr (refusal, o) ↦ rw (o, apply_runtime_config_change) (λ asked. refl)
      | inl o ↦
          rw (o, commands, apply_runtime_config_change)
            (run_targeted_lem reformat_float run_command scope key name_server view Accepts laws
              (view w) request.value nodes kept takes
              (rw (o, commands, apply_runtime_config_change) at e))
    ]
