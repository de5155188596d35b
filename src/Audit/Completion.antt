-- ===== src/Audit/Completion.antt =====
-- What `complete` leaves in the audit at the end of a mutation.
use go_rocketmq_dashboard.Base.{◌≡◌, ◌↔◌, refl, Bool, true, false, Option, none, some, arith}
use go_rocketmq_dashboard.Base.Text.{Text}
use go_rocketmq_dashboard.Auth.{Authenticator}
use go_rocketmq_dashboard.Audit.{
  AuditRecord, AuditStore, Ambient, completed, succeeded, rolled_back, marshal_audit_value,
  completed_record, complete,
}

-- The record of an end: of the same operation as the record of the start, with the outcome.
pub record IsCompletion (start end : AuditRecord) (operation_error : Option Text) (rolled : Bool)
    : Type 0 where
  pub is_completed : end.phase ≡ completed
  pub same_operation : end.operation_id ≡ start.operation_id
  pub same_actor : end.actor ≡ start.actor
  pub same_action : end.action ≡ start.action
  pub same_cluster : end.cluster_id ≡ start.cluster_id
  pub same_target : end.target ≡ start.target
  pub same_reason : end.reason ≡ start.reason
  pub same_before : end.before ≡ start.before
  pub succeeds : (end.result ≡ succeeded) ↔ ((operation_error ≡ none) × (rolled ≡ false))
  pub rolls_back : (end.result ≡ rolled_back) ↔ (rolled ≡ true)

module _ {V : Type 0} (store : AuditStore) (authenticator : Authenticator)
    (marshal : V → Option Text) (path_unescape : Text → Option Text) where
  completed_record-IsCompletion :
      (r : AuditRecord) (now after_json verification_json : _) (operation_error : Option Text)
      (rolled : Bool)
      → IsCompletion r
          (completed_record store authenticator marshal path_unescape r now after_json
            verification_json operation_error rolled)
          operation_error
          rolled
  unfolding completed_record
  completed_record-IsCompletion r now after_json verification_json operation_error rolled = record {
    is_completed = refl;
    same_operation = refl;
    same_actor = refl;
    same_action = refl;
    same_cluster = refl;
    same_target = refl;
    same_reason = refl;
    same_before = refl;
    succeeds = (λ h. ground arith, λ h. ground arith);
    rolls_back = (λ h. ground arith, λ h. ground arith);
  }

  module _ (r : AuditRecord) (ambient : Ambient) (operation_error : Option Text) (rolled : Bool)
      (s s' : store.State) where
    completed_with : Text → Text → AuditRecord
    completed_with after_json verification_json =
        completed_record store authenticator marshal path_unescape r ambient.now after_json
          verification_json operation_error rolled

    IsStored : Type 0
    IsStored =
        (end : AuditRecord) × IsCompletion r end operation_error rolled
        × (store.append ambient.context s end ≡ (s', true))

    stored_by_cases :
        (after_json verification_json : Option Text)
        → ◌≡◌ {A = store.State × Bool}
            (elim after_json [
              | none ↦ (s, false)
              | some a ↦ elim verification_json [
                | none ↦ (s, false)
                | some v ↦ store.append ambient.context s (completed_with a v)
              ]
            ])
            (s', true)
        → IsStored
    unfolding completed_with IsStored
    stored_by_cases none _ h = cc
    stored_by_cases (some a) none h = cc
    stored_by_cases (some a) (some v) h = (
      completed_with a v,
      completed_record-IsCompletion r ambient.now a v operation_error rolled,
      h,
    )

  -- When `complete` returns no error, the store has taken a record of the end of the operation that
  -- the start names, with its actor, action, cluster, target, reason and state before; it says
  -- succeeded exactly where the operation has no error and was not rolled back, and rolled back
  -- exactly where it was.
  pub complete-IsCompletion :
      (r : AuditRecord) (ambient : Ambient) (after verification : Option V)
      (operation_error : Option Text) (rolled : Bool) (s s' : store.State)
      → complete store authenticator marshal path_unescape r ambient after verification
          operation_error rolled s
        ≡ (s', true)
      → (end : AuditRecord) × IsCompletion r end operation_error rolled
        × (store.append ambient.context s end ≡ (s', true))
  unfolding complete completed_with IsStored
  complete-IsCompletion r ambient after verification operation_error rolled s s' h =
      stored_by_cases r ambient operation_error rolled s s' (marshal_audit_value marshal after)
        (marshal_audit_value marshal verification) h
