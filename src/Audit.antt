-- ===== src/Audit.antt =====
-- internal/server/auth_audit.go, the second half: audit records, the interface of the stores that
-- keep them, and the admission and completion of a mutation.
pub mod Admission
pub mod Completion
pub mod Store
use go_rocketmq_dashboard.Base.{
  ℕ, Bool, true, false, not, Option, none, some, List, [], ◌++◌, if◌then◌else◌, ◌==◌, text_eq,
}
use go_rocketmq_dashboard.Base.Int.{ℤ}
use go_rocketmq_dashboard.Base.Text.{Text, text, trim_space}
use go_rocketmq_dashboard.Auth.{
  Permission, Principal, Authenticator, AuthError, AuthResult, ok, err, authenticate, allows,
  no_credentials_configured, bearer_required, token_invalid, token_and_subject_required,
  token_repeated, roles_missing,
}

pub data Phase : Type 0 where
  started completed denied : Phase

pub data OperationResult : Type 0 where
  pending succeeded failed rolled_back refused : OperationResult

-- A `json.RawMessage` is its text, empty where it is nil.
pub record AuditRecord : Type 0 where
  pub operation_id : Text
  pub phase : Phase
  pub timestamp_unix_milli : ℤ
  pub actor : Principal
  pub action : Text
  pub cluster_id : Text
  pub target : Text
  pub reason : Text
  pub before : Text
  pub after : Text
  pub verification : Text
  pub result : OperationResult
  pub error : Text
  pub rollback_of : Text
  pub request_id : Text

-- What the environment does in one call of `Append`: the state of the context, and how far the file
-- operations get. A write that fails may leave the first bytes of its line in the file.
pub data FileOutcome : Type 0 where
  all_done mkdir_fails open_fails sync_fails : FileOutcome
  write_fails : ℕ → FileOutcome

pub record Context : Type 0 where
  pub cancelled : Bool
  pub file : FileOutcome

-- The interface `AuditStore`; `append` says whether it has returned nil.
pub record AuditStore : Type 1 where
  pub State : Type 0
  pub append : Context → State → AuditRecord → State × Bool
  pub list : Context → State → Text → ℤ → Option (List AuditRecord)

-- What one request meets: the random identifiers that it draws, the clock and the context. `none`
-- is a failure of the random source.
pub record Ambient : Type 0 where
  pub operation_id : Option Text
  pub drawn_request_id : Option Text
  pub now : ℤ
  pub context : Context

pub data AdmissionReason : Type 0 where
  unauthenticated : AuthError → AdmissionReason
  no_permission reason_encoding_invalid reason_required : AdmissionReason
  operation_id_failed marshal_failed append_failed : AdmissionReason

-- `mutationAdmissionError`
pub record AdmissionError : Type 0 where
  pub status : ℕ
  pub reason : AdmissionReason

pub data AdmissionResult : Type 0 where
  admitted : AuditRecord → AdmissionResult
  rejected : AdmissionError → AdmissionResult

-- `err.Error()` of the errors that a denial records.
auth_error_text : AuthError → Text
auth_error_text no_credentials_configured = text "当前部署未配置写操作身份凭据"
auth_error_text bearer_required = text "写操作需要 Bearer 身份凭据"
auth_error_text token_invalid = text "身份凭据无效"
auth_error_text token_and_subject_required = text "身份凭据必须包含 token 和 subject"
auth_error_text token_repeated = text "身份凭据 token 不能重复"
auth_error_text (roles_missing subject) = text "身份凭据 " ++ subject ++ text " 未配置角色"

pub admission_reason_text : AdmissionReason → Text
unfolding auth_error_text
admission_reason_text (unauthenticated e) = auth_error_text e
admission_reason_text no_permission = text "当前身份没有执行该操作的权限"
admission_reason_text reason_encoding_invalid = text "写操作理由编码无效"
admission_reason_text reason_required = text "写操作需要操作理由"
admission_reason_text operation_id_failed = text "生成操作标识失败"
admission_reason_text marshal_failed = text "序列化审计内容失败"
admission_reason_text append_failed = text "写入操作审计失败"

abbrev pub anonymous : Principal
anonymous = record { subject = text "anonymous"; roles = [] }

-- `operationReasonFromRequest`, over the decoder `url.PathUnescape`; `none` is its error.
pub operation_reason : (Text → Option Text) → (Text → Text) → Option Text
operation_reason path_unescape header =
    let encoded = trim_space (header (text "X-RMQD-Operation-Reason-Encoded")) in
    if encoded == []
    then some (trim_space (header (text "X-RMQD-Operation-Reason")))
    else elim (path_unescape encoded) [ none ↦ none | some reason ↦ some (trim_space reason) ]

-- `requestID`: the caller's identifier, or one that is drawn; a failure to draw leaves it empty.
pub request_id : (Text → Text) → Option Text → Text
request_id header drawn =
    let value = trim_space (header (text "X-Request-ID")) in
    if not (value == []) then value else elim drawn [ none ↦ [] | some id ↦ id ]

-- `marshalAuditValue`: nil stays empty.
unfoldable pub marshal_audit_value {ℓ} : {V : Type ℓ} → (V → Option Text) → Option V → Option Text
marshal_audit_value marshal none = some []
marshal_audit_value marshal (some v) = marshal v

-- What a call names: the action, the cluster and the target.
pub record Operation : Type 0 where
  pub permission : Permission
  pub action : Text
  pub cluster_id : Text
  pub target : Text

pub denied_record : Operation → Ambient → Principal → Text → AdmissionReason → AuditRecord
denied_record op ambient actor id reason = record {
  operation_id = id;
  phase = denied;
  timestamp_unix_milli = ambient.now;
  actor = if trim_space actor.subject == [] then anonymous else actor;
  action = op.action;
  cluster_id = op.cluster_id;
  target = op.target;
  reason = [];
  before = [];
  after = [];
  verification = [];
  result = refused;
  error = admission_reason_text reason;
  rollback_of = [];
  request_id = [];
}

pub start_record :
    Operation → Ambient → (Text → Text) → Principal → Text → Text → Text → AuditRecord
start_record op ambient header principal reason id before_json = record {
  operation_id = id;
  phase = started;
  timestamp_unix_milli = ambient.now;
  actor = principal;
  action = op.action;
  cluster_id = op.cluster_id;
  target = op.target;
  reason = reason;
  before = before_json;
  after = [];
  verification = [];
  result = pending;
  error = [];
  rollback_of = [];
  request_id = request_id header ambient.drawn_request_id;
}

module _ {V : Type 0} (store : AuditStore) (authenticator : Authenticator)
    (marshal : V → Option Text) (path_unescape : Text → Option Text) where
  -- `appendDeniedAudit`: without an identifier nothing is recorded, and a failure is ignored.
  pub append_denied_audit :
      Operation → Ambient → Principal → AdmissionReason → store.State → store.State
  append_denied_audit op ambient actor reason s = elim ambient.operation_id [
    | none ↦ s
    | some id ↦ (store.append ambient.context s (denied_record op ambient actor id reason)).0
  ]

  pub deny :
      Operation
      → Ambient
      → Principal
      → ℕ
      → AdmissionReason
      → store.State
      → AdmissionResult × store.State
  unfolding append_denied_audit
  deny op ambient actor status reason s = (
    rejected (record { status = status; reason = reason }),
    append_denied_audit op ambient actor reason s,
  )

  abbrev fail : ℕ → AdmissionReason → store.State → AdmissionResult × store.State
  fail status reason s = (rejected (record { status = status; reason = reason }), s)

  pub appended : AuditRecord → store.State × Bool → AdmissionResult × store.State
  appended r (s, true) = (admitted r, s)
  appended r (s, false) = fail 503 append_failed s

  -- The last part of `beginMutationForCluster`: the record of the start, which must be stored. The
  -- two options are the drawn identifier and the marshalled state before the operation.
  pub start_with :
      Operation
      → Ambient
      → (Text → Text)
      → Principal
      → Text
      → store.State
      → Option Text
      → Option Text
      → AdmissionResult × store.State
  unfolding appended
  start_with op ambient header principal reason s none before_json = fail 500 operation_id_failed s
  start_with op ambient header principal reason s (some id) none = fail 500 marshal_failed s
  start_with op ambient header principal reason s (some id) (some before_json) =
      let r = start_record op ambient header principal reason id before_json in
      appended r (store.append ambient.context s r)

  pub start_mutation :
      Operation
      → Ambient
      → (Text → Text)
      → Principal
      → Text
      → Option V
      → store.State
      → AdmissionResult × store.State
  unfolding start_with
  start_mutation op ambient header principal reason before s =
      start_with op ambient header principal reason s ambient.operation_id
        (marshal_audit_value marshal before)

  -- With a principal that has the permission: the reason.
  pub require_reason :
      Operation
      → Ambient
      → (Text → Text)
      → Principal
      → Option V
      → store.State
      → Option Text
      → AdmissionResult × store.State
  unfolding deny start_mutation
  require_reason op ambient header principal before s none =
      deny op ambient principal 400 reason_encoding_invalid s
  require_reason op ambient header principal before s (some reason) =
      if reason == []
      then deny op ambient principal 400 reason_required s
      else start_mutation op ambient header principal reason before s

  pub require_permission :
      Operation
      → Ambient
      → (Text → Text)
      → Option V
      → store.State
      → AuthResult Principal
      → AdmissionResult × store.State
  unfolding deny require_reason
  require_permission op ambient header before s (err e) =
      deny op ambient anonymous 401 (unauthenticated e) s
  require_permission op ambient header before s (ok principal) =
      if not (allows principal op.permission)
      then deny op ambient principal 403 no_permission s
      else require_reason op ambient header principal before s
          (operation_reason path_unescape header)

  -- `beginMutationForCluster`
  pub begin_mutation_for_cluster :
      Operation → Ambient → (Text → Text) → Option V → store.State → AdmissionResult × store.State
  unfolding require_permission
  begin_mutation_for_cluster op ambient header before s =
      require_permission op ambient header before s
        (authenticate authenticator (header (text "Authorization")))

  -- `complete`: `error` is the text of the operation's error, `none` where it has none.
  unfoldable pub completed_record : AuditRecord → ℤ → Text → Text → Option Text → Bool → AuditRecord
  completed_record r now after_json verification_json operation_error rolled = record r {
    phase = completed;
    timestamp_unix_milli = now;
    after = after_json;
    verification = verification_json;
    result =
        if rolled then rolled_back else elim operation_error [ none ↦ succeeded | some _ ↦ failed ];
    error = elim operation_error [ none ↦ r.error | some e ↦ e ];
    rollback_of = if rolled then r.operation_id else r.rollback_of;
  }

  unfoldable pub complete :
      AuditRecord
      → Ambient
      → Option V
      → Option V
      → Option Text
      → Bool
      → store.State
      → store.State × Bool
  unfolding completed_record
  complete r ambient after verification operation_error rolled s =
      elim (marshal_audit_value marshal after) [
        | none ↦ (s, false)
        | some after_json ↦ elim (marshal_audit_value marshal verification) [
          | none ↦ (s, false)
          | some verification_json ↦
              store.append ambient.context s
                (completed_record r ambient.now after_json verification_json operation_error rolled)
        ]
      ]
