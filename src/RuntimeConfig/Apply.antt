-- ===== src/RuntimeConfig/Apply.antt =====
-- The writes of one request, each verified by reading it back, and the rollback after a failure.
use go_rocketmq_dashboard.Base.{
  Bool, true, false, if◌then◌else◌, ltb, ◌==◌, text_eq, List, [], ◌∷◌, ◌++◌, Option, none, some,
  length,
}
use go_rocketmq_dashboard.Base.Text.{Text}
use go_rocketmq_dashboard.RuntimeConfig.Values.{runtime_config_requires_restart}
use go_rocketmq_dashboard.RuntimeConfig.Nodes.{
  Reply, ReadError, ReadResult, unread, not_found, found, read_runtime_config_value,
  write_runtime_config_value,
}

pub record RuntimePendingChange : Type 0 where
  pub target : Text
  pub previous : Text
  pub value : Text

pub record RuntimeConfigChangeResult : Type 0 where
  pub scope : Text
  pub target : Text
  pub key : Text
  pub previous_value : Text
  pub value : Text
  pub changed : Bool
  pub restart_required : Bool

pub record RuntimeConfigApplyPayload : Type 0 where
  pub results : List RuntimeConfigChangeResult
  pub restart_required : Bool
  pub rolled_back : Bool

pub data ApplyCause : Type 0 where
  write_failed : Text → ApplyCause
  verify_unread : Text → ReadError → ApplyCause
  verify_differs : Text → Text → ApplyCause

-- A failed rollback: the target and the message.
abbrev pub RollbackErrors : Type 0
RollbackErrors = List (Text × Text)

-- The two messages: everything has its old value again, or the rollback failed too.
pub data ApplyError : Type 0 where
  restored : ApplyCause → ApplyError
  rollback_incomplete : ApplyCause → RollbackErrors → ApplyError

unfoldable pub runtime_config_apply_error : ApplyCause → RollbackErrors → ApplyError
runtime_config_apply_error cause [] = restored cause
runtime_config_apply_error cause (e ∷ errors) = rollback_incomplete cause (e ∷ errors)

-- What became of one change.
pub data ChangeOutcome : Type 0 where
  kept : ChangeOutcome
  written : ChangeOutcome
  not_written : ApplyCause → ChangeOutcome
  not_verified : ApplyCause → ChangeOutcome

-- `readErr != nil || !found || actual != change.value`
unfoldable pub verified : RuntimePendingChange → ReadResult → ChangeOutcome
verified change (unread e) = not_verified (verify_unread change.target e)
verified change not_found = not_verified (verify_differs change.target [])
verified change (found actual) =
    if actual == change.value then written else not_verified (verify_differs change.target actual)

pub record Applying (W : Type 0) : Type 0 where
  pub world : W
  pub payload : RuntimeConfigApplyPayload
  pub failure : Option ApplyError
  -- The feature snapshot is refreshed.
  pub refreshes : Bool

unfoldable pub rollback_errors : RuntimePendingChange → Option Text → RollbackErrors
rollback_errors change none = []
rollback_errors change (some message) = (change.target, message) ∷ []

module _ {W : Type 0} (run_command : List Text → W → W × Reply) (scope key name_server : Text) where
  -- From the last change to the first.
  unfoldable pub rollback_runtime_config_changes :
      List RuntimePendingChange → W → W × RollbackErrors
  unfolding rollback_errors
  rollback_runtime_config_changes [] w = (w, [])
  rollback_runtime_config_changes (change ∷ later) w =
      let after = rollback_runtime_config_changes later w in
      let write =
        write_runtime_config_value run_command scope change.target key change.previous name_server
          after.0 in
      (write.0, after.1 ++ rollback_errors change write.1)

  -- The change is read back after a write with no error.
  unfoldable pub after_write : RuntimePendingChange → W × Option Text → W × ChangeOutcome
  unfolding verified
  after_write change (w, some message) = (w, not_written (write_failed message))
  after_write change (w, none) =
      let read = read_runtime_config_value run_command scope change.target key w in
      (read.0, verified change read.1)

  unfoldable pub apply_change : RuntimePendingChange → W → W × ChangeOutcome
  unfolding after_write
  apply_change change w =
      if change.previous == change.value
      then (w, kept)
      else after_write change (
          write_runtime_config_value run_command scope change.target key change.value name_server w)

  unfoldable pub change_result : RuntimePendingChange → Bool → RuntimeConfigChangeResult
  unfolding runtime_config_requires_restart
  change_result change changed = record {
    scope = scope;
    target = change.target;
    key = key;
    previous_value = change.previous;
    value = change.value;
    changed = changed;
    restart_required = runtime_config_requires_restart key;
  }

  unfoldable pub fail_with :
      List RuntimeConfigChangeResult
      → List RuntimePendingChange
      → Bool
      → ApplyCause
      → W
      → Applying W
  unfolding rollback_runtime_config_changes runtime_config_apply_error
  fail_with results applied rolled_back cause w =
      let after = rollback_runtime_config_changes applied w in
      record {
        world = after.0;
        payload = record { results = results; restart_required = false; rolled_back = rolled_back };
        failure = some (runtime_config_apply_error cause after.1);
        refreshes = false;
      }

  -- The loop over the pending changes, with the results and the changes that are applied so far.
  unfoldable pub apply_changes :
      List RuntimePendingChange
      → List RuntimeConfigChangeResult
      → List RuntimePendingChange
      → W
      → Applying W
  unfolding apply_change change_result fail_with runtime_config_requires_restart
  apply_changes [] results applied w = record {
    world = w;
    payload = record {
      results = results;
      restart_required = runtime_config_requires_restart key;
      rolled_back = false;
    };
    failure = none;
    refreshes = ltb 0 (length applied);
  }
  apply_changes (change ∷ pending) results applied w =
      let step = apply_change change w in
      elim step.1 [
        | kept ↦ apply_changes pending (results ++ change_result change false ∷ []) applied step.0
        | written ↦
            apply_changes pending (results ++ change_result change true ∷ [])
              (applied ++ change ∷ []) step.0
        | not_written cause ↦ fail_with results applied (ltb 0 (length applied)) cause step.0
        | not_verified cause ↦ fail_with results (applied ++ change ∷ []) true cause step.0
      ]
