-- ===== src/Chain.antt =====
-- internal/rocketmq/chain.go: the timeline of a message, from its store time, its trace events and
-- the states of its consumer groups, and the structs of types.go that it reads and builds.
pub mod Numbers
pub mod Timeline
pub mod Status
use go_rocketmq_dashboard.Base.{
  ℕ, Bool, true, false, ◌||◌, List, [], ◌∷◌, ◌++◌, map, if◌then◌else◌, ltb, ◌==◌, contains, text_eq,
}
use mathlib.Core.List.{reverse}
use go_rocketmq_dashboard.Base.Int.{ℤ, lt_int, int_eq}
use go_rocketmq_dashboard.Base.Lex.{lex_less}
use go_rocketmq_dashboard.Base.Sort.{sort_stable}
use go_rocketmq_dashboard.Base.Text.{Text, text}
use Numbers.{format_lag}

pub record TransactionMessageDetail : Type 0 where
  pub enabled : Bool
  pub state : Text
  pub transaction_id : Text
  pub producer_group : Text
  pub real_topic : Text
  pub real_queue_id : ℤ
  pub has_real_queue_id : Bool
  pub check_times : ℤ
  pub has_check_times : Bool

pub record MessageDetail : Type 0 where
  pub message_id : Text
  pub topic : Text
  pub broker_name : Text
  pub keys : List Text
  pub trace_message_id : Text
  pub trace_parent : Text
  pub store_timestamp : ℤ
  pub queue_id : ℤ
  pub queue_offset : ℤ
  pub reconsume_times : ℤ
  pub system_flag : ℤ
  pub transaction : TransactionMessageDetail
  pub born_host : Text
  pub store_host : Text
  pub body_preview : Text

pub record MessageSearchResult : Type 0 where
  pub message_id : Text
  pub queue_id : ℤ
  pub queue_offset : ℤ

pub record TraceEvent : Type 0 where
  pub stage : Text
  pub group : Text
  pub timestamp : ℤ
  pub detail : Text

pub record ConsumerState : Type 0 where
  pub group : Text
  pub topic : Text
  pub status : Text
  pub lag : ℤ

pub record MessageStatusStep : Type 0 where
  pub stage : Text
  pub label : Text
  pub group : Text
  pub timestamp : ℤ
  pub detail : Text
  pub health : Text

pub record MessageStatusChain : Type 0 where
  pub message_id : Text
  pub topic : Text
  pub keys : List Text
  pub detail : MessageDetail
  pub candidates : List MessageSearchResult
  pub overall_status : Text
  pub steps : List MessageStatusStep

pub is_consume_stage : Text → Bool
is_consume_stage stage =
    stage == text "CONSUME_SUCCESS" || stage == text "CONSUME_FAILED" || stage == text "CONSUMED"

pub label_for_stage : Text → Text
label_for_stage stage =
    if stage == text "STORED"
    then text "Broker 已存储"
    else if stage == text "SEND_SUCCESS"
    then text "发送成功"
    else if stage == text "SEND_FAILED"
    then text "发送失败"
    else if stage == text "CONSUME_SUCCESS" || stage == text "CONSUMED"
    then text "消费成功"
    else if stage == text "CONSUME_FAILED"
    then text "消费失败"
    else if stage == text "RETRY"
    then text "等待重试"
    else if stage == text "DLQ"
    then text "进入死信队列"
    else if stage == text "PENDING"
    then text "等待消费"
    else if stage == text "TRACE_MISSING"
    then text "轨迹缺失"
    else if stage == text "CONSUMER_PROGRESS_FAILED"
    then text "消费进度查询失败"
    else stage

pub health_for_stage : Text → Text
health_for_stage stage =
    if stage == text "SEND_FAILED" || stage == text "CONSUME_FAILED" || stage == text "DLQ"
    then text "danger"
    else if stage == text "RETRY"
        || stage == text "PENDING"
        || stage == text "TRACE_MISSING"
        || stage == text "CONSUMER_PROGRESS_FAILED"
    then text "warning"
    else text "ok"

pub step_rank : Text → ℕ
step_rank stage =
    if stage == text "STORED"
    then 0
    else if stage == text "SEND_SUCCESS" || stage == text "SEND_FAILED"
    then 1
    else if stage == text "CONSUME_SUCCESS" || stage == text "CONSUME_FAILED"
    then 2
    else 3

pub latest_timestamp : ℤ → List TraceEvent → ℤ
latest_timestamp latest [] = latest
latest_timestamp latest (event ∷ events) =
    latest_timestamp (if lt_int latest event.timestamp then event.timestamp else latest) events

-- The groups that have a consume trace: the keys of `consumeTraceByGroup`.
pub consume_trace_groups : List TraceEvent → List Text
consume_trace_groups [] = []
consume_trace_groups (event ∷ events) =
    let rest = consume_trace_groups events in
    if is_consume_stage event.stage then event.group ∷ rest else rest

pub stored_step : MessageDetail → MessageStatusStep
stored_step message = record {
  stage = text "STORED";
  label = text "Broker 已存储";
  group = [];
  timestamp = message.store_timestamp;
  detail = text "消息已经写入 Broker 存储队列";
  health = text "ok";
}

pub trace_step : TraceEvent → MessageStatusStep
trace_step event = record {
  stage = event.stage;
  label = label_for_stage event.stage;
  group = event.group;
  timestamp = event.timestamp;
  detail = event.detail;
  health = health_for_stage event.stage;
}

pub offset_step : ℤ → ConsumerState → MessageStatusStep
offset_step latest state = record {
  stage = state.status;
  label = label_for_stage state.status;
  group = state.group;
  timestamp = latest;
  detail = text "消费者组当前堆积: " ++ format_lag state.lag;
  health = health_for_stage state.status;
}

-- A group with a consume trace is shown by its trace only.
pub offset_steps : List Text → ℤ → List ConsumerState → List MessageStatusStep
offset_steps traced latest [] = []
offset_steps traced latest (state ∷ states) =
    let rest = offset_steps traced latest states in
    if contains traced state.group then rest else offset_step latest state ∷ rest

-- The `less` of the stable sort: by time, and by rank at one time.
pub step_less : MessageStatusStep → MessageStatusStep → Bool
unfolding lex_less
step_less = lex_less (λ s. s.timestamp) (λ s. step_rank s.stage) lt_int

-- The loop of `overallStatusFromSteps` runs from the last step down: the steps come reversed.
last_business_stage : List MessageStatusStep → Text
last_business_stage [] = text "STORED"
last_business_stage (step ∷ steps) =
    let rest = last_business_stage steps in
    if step.stage == text "TRACE_MISSING" then rest else step.stage

pub overall_status_from_steps : List MessageStatusStep → Text
unfolding last_business_stage
overall_status_from_steps steps = last_business_stage (reverse steps)

-- The steps before they are sorted.
pub collected_steps : MessageDetail → List TraceEvent → List ConsumerState → List MessageStatusStep
collected_steps message traces offsets =
    stored_step message ∷ map trace_step traces
    ++ offset_steps (consume_trace_groups traces) (latest_timestamp message.store_timestamp traces)
        offsets

pub build_message_status_chain :
    MessageDetail → List TraceEvent → List ConsumerState → MessageStatusChain
unfolding collected_steps
build_message_status_chain message traces offsets =
    let steps = sort_stable step_less (collected_steps message traces offsets) in
    record {
      message_id = message.message_id;
      topic = message.topic;
      keys = message.keys;
      detail = message;
      candidates = [];
      overall_status = overall_status_from_steps steps;
      steps = steps;
    }
