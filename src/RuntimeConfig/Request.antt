-- ===== src/RuntimeConfig/Request.antt =====
-- `applyRuntimeConfigChange`: a whole request, under the lock of its cluster.
use go_rocketmq_dashboard.Base.{
  not, ◌&&◌, ◌||◌, if◌then◌else◌, ltb, ◌==◌, text_eq, List, [], ◌∷◌, ◌++◌, Option, none, some,
  is_nil,
}
use go_rocketmq_dashboard.Base.Text.{Text, text, trim_space, to_lower, contains_any, byte_length}
use go_rocketmq_dashboard.RuntimeConfig.Values.{
  ValueKind, NormalizedValue, accepted, must_be, matches_key_pattern,
  normalize_runtime_config_value,
}
use go_rocketmq_dashboard.RuntimeConfig.Targets.{ClusterFeatureReport, report_targets}
use go_rocketmq_dashboard.RuntimeConfig.Nodes.{
  Reply, ReadError, ReadResult, unread, not_found, found, read_runtime_config_value,
}
use go_rocketmq_dashboard.RuntimeConfig.Apply.{RuntimePendingChange, Applying, apply_changes}

pub record RuntimeConfigChangeRequest : Type 0 where
  pub scope : Text
  pub target : Text
  pub key : Text
  pub value : Text

-- A request that ends before its first write.
pub data RequestRefusal : Type 0 where
  scope_invalid : RequestRefusal
  target_missing : RequestRefusal
  key_invalid : RequestRefusal
  value_invalid : RequestRefusal
  commands_unsupported : RequestRefusal
  features_unsupported : RequestRefusal
  features_failed : Text → RequestRefusal
  no_target : RequestRefusal
  read_failed : Text → ReadError → RequestRefusal
  key_absent : Text → RequestRefusal
  value_refused : ValueKind → RequestRefusal

pub data FeatureReply : Type 0 where
  report : ClusterFeatureReport → FeatureReply
  no_report : Text → FeatureReply

-- What the provider can do; a part that it does not implement is `none`.
pub record Provider (W : Type 0) : Type 0 where
  pub commands : Option (List Text → W → W × Reply)
  pub features : Option (W → W × FeatureReply)

pub data RequestOutcome (W : Type 0) : Type 0 where
  refused : RequestRefusal → W → RequestOutcome W
  ran : Applying W → RequestOutcome W

-- The checks that need no provider, in their order.
unfoldable pub invalid_request : RuntimeConfigChangeRequest → Option RequestRefusal
unfolding matches_key_pattern trim_space to_lower contains_any byte_length
invalid_request request =
    let scope = to_lower (trim_space request.scope) in
    if not (scope == text "broker") && not (scope == text "nameserver")
    then some scope_invalid
    else if trim_space request.target == []
    then some target_missing
    else if not (matches_key_pattern (trim_space request.key))
    then some key_invalid
    else if contains_any request.value (b'\r' ∷ b'\n' ∷ []) || ltb 8192 (byte_length request.value)
    then some value_invalid
    else none

pub data Targeted : Type 0 where
  targets : List Text → Targeted
  untargeted : RequestRefusal → Targeted

unfoldable pub targets_of_reply : Text → Text → Text → FeatureReply → Targeted
unfolding report_targets
targets_of_reply scope requested key (no_report message) = untargeted (features_failed message)
targets_of_reply scope requested key (report r) =
    if is_nil (report_targets r scope requested key)
    then untargeted no_target
    else targets (report_targets r scope requested key)

pub data Prepared : Type 0 where
  ready : List RuntimePendingChange → Prepared
  stopped : RequestRefusal → Prepared

unfoldable pub add_ready : List RuntimePendingChange → Prepared → Prepared
add_ready first (ready rest) = ready (first ++ rest)
add_ready first (stopped refusal) = stopped refusal

unfoldable pub pending_change : Text → Text → NormalizedValue → Prepared
pending_change target previous (must_be kind) = stopped (value_refused kind)
pending_change target previous (accepted next) =
    ready (record { target = target; previous = previous; value = next } ∷ [])

module _ {W : Type 0} where
  unfoldable pub runtime_config_targets :
      Option (W → W × FeatureReply) → Text → Text → Text → W → W × Targeted
  unfolding targets_of_reply
  runtime_config_targets none scope requested key w = (w, untargeted features_unsupported)
  runtime_config_targets (some ask) scope requested key w =
      let reply = ask w in (reply.0, targets_of_reply scope requested key reply.1)

  module _ (reformat_float : Text → Option Text) (run_command : List Text → W → W × Reply) where
    -- One node: its old value and the new one.
    unfoldable pub prepare_change : Text → Text → Text → Text → ReadResult → Prepared
    prepare_change scope key value target (unread e) = stopped (read_failed target e)
    prepare_change scope key value target not_found = stopped (key_absent target)
    prepare_change scope key value target (found previous) =
        pending_change target previous
          (normalize_runtime_config_value reformat_float key previous value)

    unfoldable pub prepare_changes : Text → Text → Text → List Text → W → W × Prepared
    prepare_changes scope key value [] w = (w, ready [])
    prepare_changes scope key value (target ∷ rest) w =
        let read = read_runtime_config_value run_command scope target key w in
        elim (prepare_change scope key value target read.1) [
          | stopped refusal ↦ (read.0, stopped refusal)
          | ready first ↦
              let others = prepare_changes scope key value rest read.0 in
              (others.0, add_ready first others.1)
        ]

    -- The writes, once everything is read.
    unfoldable pub run_prepared : Text → Text → Text → W × Prepared → RequestOutcome W
    run_prepared scope key name_server (w, stopped refusal) = refused refusal w
    run_prepared scope key name_server (w, ready pending) =
        ran (apply_changes run_command scope key name_server pending [] [] w)

    unfoldable pub run_targeted : Text → Text → Text → Text → W × Targeted → RequestOutcome W
    unfolding run_prepared
    run_targeted scope key value name_server (w, untargeted refusal) = refused refusal w
    run_targeted scope key value name_server (w, targets nodes) =
        run_prepared scope key name_server (prepare_changes scope key value nodes w)

  unfoldable pub apply_runtime_config_change :
      (Text → Option Text) → Provider W → Text → RuntimeConfigChangeRequest → W → RequestOutcome W
  apply_runtime_config_change reformat_float provider name_server request w =
      let scope = to_lower (trim_space request.scope) in
      let key = trim_space request.key in
      elim (invalid_request request) [
        | some refusal ↦ refused refusal w
        | none ↦ elim provider.commands [
          | none ↦ refused commands_unsupported w
          | some run_command ↦
              run_targeted reformat_float run_command scope key request.value name_server
                (runtime_config_targets provider.features scope (trim_space request.target) key w)
        ]
      ]
