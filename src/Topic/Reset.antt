-- ===== src/Topic/Reset.antt =====
-- `ConsumerOffsetResetRequest` of topic_mutation.go.
use go_rocketmq_dashboard.Base.{
  Bool, true, false, not, ◌&&◌, ◌||◌, Option, none, some, [], ◌++◌, if◌then◌else◌, ◌==◌, text_eq,
  ◌≡◌, ◌≢◌, ◌↔◌, arith, refl,
}
use go_rocketmq_dashboard.Base.Int.{ℤ, pos, lt_int}
use go_rocketmq_dashboard.Base.Itoa.{itoa}
use go_rocketmq_dashboard.Base.Text.{Text, text, trim_space}
use go_rocketmq_dashboard.Topic.Refusal.{
  Refusal, topic_required, group_required, queue_id_negative, broker_and_queue_together,
  offset_needs_queue,
}

pub record ConsumerOffsetResetRequest : Type 0 where
  pub group : Text
  pub topic : Text
  pub timestamp : Text
  pub force : Bool
  pub broker_addr : Text
  pub queue_id : Option ℤ
  pub offset : Option ℤ

pub normalized : ConsumerOffsetResetRequest → ConsumerOffsetResetRequest
normalized r = record r {
  group = trim_space r.group;
  topic = trim_space r.topic;
  timestamp = if trim_space r.timestamp == [] then text "now" else trim_space r.timestamp;
  broker_addr = trim_space r.broker_addr;
}

abbrev is_some {ℓ} : {A : Type ℓ} → Option A → Bool
is_some none = false
is_some (some a) = true

-- `*q < 0` where `q` is not nil
abbrev is_negative : Option ℤ → Bool
is_negative none = false
is_negative (some q) = lt_int q (pos 0)

check : ConsumerOffsetResetRequest → Option Refusal
check r =
    let has_broker = not (r.broker_addr == []) in
    let has_queue = is_some r.queue_id in
    if r.group == []
    then some group_required
    else if r.topic == []
    then some topic_required
    else if is_negative r.queue_id
    then some queue_id_negative
    else if (has_broker && not has_queue) || (not has_broker && has_queue)
    then some broker_and_queue_together
    else if is_some r.offset && (not has_broker || not has_queue)
    then some offset_needs_queue
    else none

pub validate : ConsumerOffsetResetRequest → Option Refusal
unfolding check
validate r = check (normalized r)

target_queue : Text → Option ℤ → Text
target_queue broker none = text "group/topic"
target_queue broker (some queue_id) = broker ++ text "/Q" ++ itoa queue_id

pub target_label : ConsumerOffsetResetRequest → Text
unfolding target_queue
target_label r =
    let n = normalized r in
    if n.broker_addr == [] then text "group/topic" else target_queue n.broker_addr n.queue_id

-- The range of a reset: the whole group and topic, or one queue of one broker with an optional offset.
abbrev pub RangeIsSound : Option ℤ → Option ℤ → Text → Type 0
RangeIsSound none none broker = broker ≡ []
RangeIsSound none (some offset) broker = ⊥
RangeIsSound (some queue_id) offset broker = (lt_int queue_id (pos 0) ≡ false) × (broker ≢ [])

range_cases :
    (r : ConsumerOffsetResetRequest) (q o : Option ℤ)
    → r.queue_id ≡ q
    → r.offset ≡ o
    → (check r ≡ none) ↔ ((r.group ≢ []) × (r.topic ≢ []) × RangeIsSound q o r.broker_addr)
unfolding check
range_cases r none none eq eo = (λ h. ground arith, λ h. ground arith)
range_cases r none (some o) eq eo = (λ h. ground arith, λ (_, _, bad). absurd bad)
range_cases r (some q) none eq eo = (λ h. ground arith, λ h. ground arith)
range_cases r (some q) (some o) eq eo = (λ h. ground arith, λ h. ground arith)

-- `Validate` accepts a reset exactly when it names a group and a topic, and either neither a
-- broker, a queue nor an offset, or a broker and a queue that is not negative.
pub validate-reset_iff :
    (r : ConsumerOffsetResetRequest)
    → (validate r ≡ none) ↔ (
        (trim_space r.group ≢ [])
        × (trim_space r.topic ≢ [])
        × RangeIsSound r.queue_id r.offset (trim_space r.broker_addr))
unfolding validate normalized
validate-reset_iff r = range_cases (normalized r) r.queue_id r.offset refl refl
