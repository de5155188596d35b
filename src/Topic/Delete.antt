-- ===== src/Topic/Delete.antt =====
-- `TopicDeleteRequest` of topic_mutation.go.
use go_rocketmq_dashboard.Base.{
  Option, none, some, [], if◌then◌else◌, ◌==◌, text_eq, ◌≡◌, ◌≢◌, ◌↔◌, arith,
}
use go_rocketmq_dashboard.Base.Text.{Text, trim_space}
use go_rocketmq_dashboard.Topic.Refusal.{Refusal, topic_required, cluster_name_required}

pub record TopicDeleteRequest : Type 0 where
  pub topic : Text
  pub cluster_name : Text

pub normalized : TopicDeleteRequest → TopicDeleteRequest
normalized r = record { topic = trim_space r.topic; cluster_name = trim_space r.cluster_name }

check : TopicDeleteRequest → Option Refusal
check r =
    if r.topic == []
    then some topic_required
    else if r.cluster_name == []
    then some cluster_name_required
    else none

pub validate : TopicDeleteRequest → Option Refusal
unfolding check
validate r = check (normalized r)

-- `Validate` accepts a request exactly when its topic and its cluster are more than spaces; of two
-- missing names it reports the topic.
pub validate-delete_cases :
    (r : TopicDeleteRequest)
    → ((validate r ≡ none) ↔ ((trim_space r.topic ≢ []) × (trim_space r.cluster_name ≢ [])))
      × ((validate r ≡ some topic_required) ↔ (trim_space r.topic ≡ []))
unfolding validate normalized
validate-delete_cases r =
    ((λ h. ground arith, λ h. ground arith), (λ h. ground arith, λ h. ground arith))
