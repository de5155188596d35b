-- ===== src/Topic/Send.antt =====
-- `TopicMessageSendRequest` of topic_mutation.go.
use go_rocketmq_dashboard.Base.{
  Bool, false, Option, none, some, [], ◌++◌, if◌then◌else◌, ◌==◌, text_eq, ◌≡◌, ◌≢◌, ◌↔◌, arith,
}
use go_rocketmq_dashboard.Base.Int.{ℤ, pos, lt_int}
use go_rocketmq_dashboard.Base.Itoa.{itoa}
use go_rocketmq_dashboard.Base.Text.{Text, text, trim_space}
use go_rocketmq_dashboard.Topic.Refusal.{
  Refusal, topic_required, body_required, queue_id_negative, broker_name_required,
}

pub record TopicMessageSendRequest : Type 0 where
  pub topic : Text
  pub body : Text
  pub keys : Text
  pub tags : Text
  pub broker_name : Text
  pub queue_id : Option ℤ
  pub trace_enable : Bool

-- The body is kept as it is.
pub normalized : TopicMessageSendRequest → TopicMessageSendRequest
normalized r = record r {
  topic = trim_space r.topic;
  keys = trim_space r.keys;
  tags = trim_space r.tags;
  broker_name = trim_space r.broker_name;
}

check_queue : Option ℤ → Text → Option Refusal
check_queue none broker_name = none
check_queue (some queue_id) broker_name =
    if lt_int queue_id (pos 0)
    then some queue_id_negative
    else if broker_name == []
    then some broker_name_required
    else none

check : TopicMessageSendRequest → Option Refusal
unfolding check_queue
check r =
    if r.topic == []
    then some topic_required
    else if trim_space r.body == []
    then some body_required
    else check_queue r.queue_id r.broker_name

pub validate : TopicMessageSendRequest → Option Refusal
unfolding check
validate r = check (normalized r)

queue_label : Text → Option ℤ → Text
queue_label broker none = broker
queue_label broker (some queue_id) = broker ++ text "/Q" ++ itoa queue_id

pub target_label : TopicMessageSendRequest → Text
unfolding queue_label
target_label r =
    let n = normalized r in
    if n.broker_name == [] then text "route" else queue_label n.broker_name n.queue_id

-- A queue that is named needs a number that is not negative, and a broker.
abbrev pub QueueIsSound : Option ℤ → Text → Type 0
QueueIsSound none broker = Unit {0}
QueueIsSound (some queue_id) broker = (lt_int queue_id (pos 0) ≡ false) × (broker ≢ [])

check_queue_iff : (q : Option ℤ) (b : Text) → (check_queue q b ≡ none) ↔ QueueIsSound q b
unfolding check_queue
check_queue_iff none b = (λ _. tt, λ _. ground arith)
check_queue_iff (some q) b = (λ h. ground arith, λ h. ground arith)

-- `Validate` accepts a message exactly when its topic and its body are more than spaces, and a
-- queue, if one is named, is not negative and comes with a broker.
pub validate-send_iff :
    (r : TopicMessageSendRequest)
    → (validate r ≡ none) ↔ (
        (trim_space r.topic ≢ [])
        × (trim_space r.body ≢ [])
        × QueueIsSound r.queue_id (trim_space r.broker_name))
unfolding validate normalized
validate-send_iff r =
    let (to, from) = check_queue_iff r.queue_id (trim_space r.broker_name) in
    (λ h. (ground arith, ground arith, to (ground arith)), λ (t, b, q). ground (arith, from q))

-- A message that is accepted with a queue is labelled by that broker and queue, never as routed.
pub target_label_of_queue :
    (r : TopicMessageSendRequest) (queue_id : ℤ)
    → validate r ≡ none
    → r.queue_id ≡ some queue_id
    → target_label r ≡ trim_space r.broker_name ++ text "/Q" ++ itoa queue_id
unfolding validate normalized target_label
target_label_of_queue r queue_id h e = ground arith
