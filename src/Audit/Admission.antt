-- ===== src/Audit/Admission.antt =====
-- Who gets past `beginMutationForCluster`, and what the audit holds afterwards.
use go_rocketmq_dashboard.Base.{
  Bool, true, false, Option, none, some, [], ◌==◌, ==→≡, text_eq, ◌≡◌, ◌≢◌, ◌⊎◌, inl, inr, refl,
  arith, Bool-cases,
}
use go_rocketmq_dashboard.Base.Text.{Text, text}
use go_rocketmq_dashboard.Auth.{
  Principal, Authenticator, AuthResult, AuthError, ok, err, authenticate, allows,
}
use go_rocketmq_dashboard.Audit.{
  AuditRecord, AuditStore, Ambient, Operation, AdmissionError, AdmissionResult, admitted, rejected,
  AdmissionReason, started, denied, pending, operation_reason, denied_record, append_denied_audit,
  appended, require_reason, require_permission, begin_mutation_for_cluster, start_record,
  start_with,
}

Option-cases {ℓ} : {A : Type ℓ} (o : Option A) → (o ≡ none) ⊎ ((a : A) × (o ≡ some a))
Option-cases none = inl refl
Option-cases (some a) = inr (a, refl)

AuthResult-cases :
    {A : Type 0} (r : AuthResult A) → ((a : A) × (r ≡ ok a)) ⊎ ((e : AuthError) × (r ≡ err e))
AuthResult-cases (ok a) = inl (a, refl)
AuthResult-cases (err e) = inr (e, refl)

module _ {V : Type 0} (store : AuditStore) (authenticator : Authenticator)
    (marshal : V → Option Text) (path_unescape : Text → Option Text) (op : Operation)
    (ambient : Ambient) (header : Text → Text) where
  abbrev begin : Option V → store.State → AdmissionResult × store.State
  begin = begin_mutation_for_cluster store authenticator marshal path_unescape op ambient header

  -- The record of a start: what was asked, by whom and why, and nothing yet of its end.
  pub record IsStart (r : AuditRecord) (principal : Principal) : Type 0 where
    pub is_started : r.phase ≡ started
    pub is_pending : r.result ≡ pending
    pub by_principal : r.actor ≡ principal
    pub of_action : r.action ≡ op.action
    pub of_cluster : r.cluster_id ≡ op.cluster_id
    pub of_target : r.target ≡ op.target
    pub with_reason : r.reason ≢ []

  pub record IsAdmitted (r : AuditRecord) (s s' : store.State) : Type 0 where
    pub principal : Principal
    pub authenticated : authenticate authenticator (header (text "Authorization")) ≡ ok principal
    pub permitted : allows principal op.permission ≡ true
    pub reasoned : operation_reason path_unescape header ≡ some r.reason
    pub is_start : IsStart r principal
    pub stored : store.append ambient.context s r ≡ (s', true)

  start_record-IsStart :
      (principal : Principal) (reason id before_json : Text)
      → reason ≢ []
      → IsStart (start_record op ambient header principal reason id before_json) principal
  unfolding start_record
  start_record-IsStart principal reason id before_json solid = record {
    is_started = refl;
    is_pending = refl;
    by_principal = refl;
    of_action = refl;
    of_cluster = refl;
    of_target = refl;
    with_reason = solid;
  }

  -- Of a refused attempt the store has at most a record of the denial, which names the action, its
  -- cluster and its target.
  abbrev pub LeavesDenial : store.State → store.State → Type 0
  LeavesDenial s s' =
      (s' ≡ s)
      ⊎ ((r : AuditRecord) × (r.phase ≡ denied)
          × (r.action ≡ op.action)
          × (r.cluster_id ≡ op.cluster_id)
          × (r.target ≡ op.target)
          × (s' ≡ (store.append ambient.context s r).0))

  -- The four ways of being turned away, in the order in which they are looked at.
  pub data IsRejected (e : AdmissionError) (s s' : store.State) : Type 0 where
    by_token :
        (cause : AuthError)
        → authenticate authenticator (header (text "Authorization")) ≡ err cause
        → e.status ≡ 401
        → LeavesDenial s s'
        → IsRejected e s s'
    by_role :
        (principal : Principal)
        → authenticate authenticator (header (text "Authorization")) ≡ ok principal
        → allows principal op.permission ≡ false
        → e.status ≡ 403
        → LeavesDenial s s'
        → IsRejected e s s'
    by_reason :
        (principal : Principal)
        → authenticate authenticator (header (text "Authorization")) ≡ ok principal
        → allows principal op.permission ≡ true
        → (operation_reason path_unescape header ≡ none)
          ⊎ (operation_reason path_unescape header ≡ some [])
        → e.status ≡ 400
        → LeavesDenial s s'
        → IsRejected e s s'
    by_service :
        (principal : Principal)
        → authenticate authenticator (header (text "Authorization")) ≡ ok principal
        → allows principal op.permission ≡ true
        → ((e.status ≡ 500) × (s' ≡ s))
          ⊎ ((r : AuditRecord) × (e.status ≡ 503)
              × IsStart r principal
              × (store.append ambient.context s r ≡ (s', false)))
        → IsRejected e s s'

  append_denied_audit_leaves :
      (actor : Principal) (reason : AdmissionReason) (s : store.State)
      → LeavesDenial s
          (append_denied_audit store authenticator marshal path_unescape op ambient actor reason s)
  unfolding append_denied_audit denied_record
  append_denied_audit_leaves actor reason s = elim (Option-cases ambient.operation_id) [
    | inl e ↦ rw (e, append_denied_audit) (inl refl)
    | inr (id, e) ↦
        rw (e, append_denied_audit)
          (inr (denied_record op ambient actor id reason, refl, refl, refl, refl, refl))
  ]

  -- Once principal and reason are settled, the record of the start is stored, or nothing is admitted.
  abbrev Started : Principal → Text → store.State → AdmissionResult × store.State → Type 0
  Started principal reason s (admitted r, s') =
      IsStart r principal × (r.reason ≡ reason) × (store.append ambient.context s r ≡ (s', true))
  Started principal reason s (rejected e, s') =
      ((e.status ≡ 500) × (s' ≡ s))
      ⊎ ((r : AuditRecord) × (e.status ≡ 503)
          × IsStart r principal
          × (store.append ambient.context s r ≡ (s', false)))

  appended-Started :
      (principal : Principal) (reason id json : Text) (s : store.State)
      (result : store.State × Bool)
      → reason ≢ []
      → store.append ambient.context s (start_record op ambient header principal reason id json)
        ≡ result
      → Started principal reason s (
          appended store authenticator marshal path_unescape
            (start_record op ambient header principal reason id json)
            result)
  unfolding appended
  appended-Started principal reason id json s (s', true) solid e =
      (start_record-IsStart principal reason id json solid, unfold start_record in refl, e)
  appended-Started principal reason id json s (s', false) solid e = inr (
    start_record op ambient header principal reason id json,
    refl,
    start_record-IsStart principal reason id json solid,
    e,
  )

  start_with-Started :
      (principal : Principal) (reason : Text) (s : store.State) (id json : Option Text)
      → reason ≢ []
      → Started principal reason s (
          start_with store authenticator marshal path_unescape op ambient header principal reason s
            id json)
  unfolding start_with
  start_with-Started principal reason s none json solid = inl (refl, refl)
  start_with-Started principal reason s (some id) none solid = inl (refl, refl)
  start_with-Started principal reason s (some id) (some json) solid =
      appended-Started principal reason id json s _ solid refl

  -- The two ends of an admission, with what the store holds then.
  abbrev pub Decided : store.State → AdmissionResult × store.State → Type 0
  Decided s (admitted r, s') = IsAdmitted r s s'
  Decided s (rejected e, s') = IsRejected e s s'

  require_reason-Decided :
      (principal : Principal) (before : Option V) (s : store.State) (reason : Option Text)
      → authenticate authenticator (header (text "Authorization")) ≡ ok principal
      → allows principal op.permission ≡ true
      → operation_reason path_unescape header ≡ reason
      → Decided s (
          require_reason store authenticator marshal path_unescape op ambient header principal
            before s reason)
  unfolding require_reason
  require_reason-Decided principal before s none a p e =
      by_reason principal a p (inl e) refl (append_denied_audit_leaves _ _ _)
  require_reason-Decided principal before s (some reason) a p e = elim (Bool-cases (reason == [])) [
    | inl empty ↦ rw empty (
        by_reason principal a p (inr (rw (← ==→≡ reason [] empty) e)) refl
          (append_denied_audit_leaves _ _ _))
    | inr solid ↦ rw solid (from_start _ (start_with-Started principal reason s _ _ (ground arith)))
  ]
    where
      from_start : (d : AdmissionResult × store.State) → Started principal reason s d → Decided s d
      from_start (admitted r, s') (is_start, same, stored) = record {
        principal = principal;
        authenticated = a;
        permitted = p;
        reasoned = rw same e;
        is_start = is_start;
        stored = stored;
      }
      from_start (rejected x, s') h = by_service principal a p h

  require_permission-Decided :
      (before : Option V) (s : store.State) (a : AuthResult Principal)
      → authenticate authenticator (header (text "Authorization")) ≡ a
      → Decided s (
          require_permission store authenticator marshal path_unescape op ambient header before s a)
  unfolding require_permission
  require_permission-Decided before s (err cause) e =
      by_token cause e refl (append_denied_audit_leaves _ _ _)
  require_permission-Decided before s (ok principal) e =
      elim (Bool-cases (allows principal op.permission)) [
        | inl may ↦ rw may (require_reason-Decided principal before s _ e may refl)
        | inr may_not ↦
            rw may_not (by_role principal e may_not refl (append_denied_audit_leaves _ _ _))
      ]

  -- A mutation is admitted only with a token that stands for a principal who has the permission,
  -- and with a reason; and then the store has taken the record of its start, in that principal's
  -- name. It is turned away for the first of token, role and reason that is missing, with 401, 403
  -- or 400 and at most a record of the denial, or because the service fails, with 500 and nothing
  -- recorded, or with 503 where the store did not take the record of the start.
  pub begin_mutation-Decided : (before : Option V) (s : store.State) → Decided s (begin before s)
  unfolding begin_mutation_for_cluster
  begin_mutation-Decided before s = require_permission-Decided before s _ refl
