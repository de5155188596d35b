-- ===== src/Tests/Topic.antt =====
-- The requests of topic_mutation.go at concrete inputs, and the cache of ttl.go.
use go_rocketmq_dashboard.Base.{
  ◌≡◌, ◌≢◌, ◌↔◌, inl, refl, true, false, none, some, [], text_eq, nat_eq,
}
use go_rocketmq_dashboard.Base.Int.{pos, int_eq}
use go_rocketmq_dashboard.Base.Text.{
  Text, text, trim_space, trim_left, trim_right, is_space, cons_trimmed,
}
use go_rocketmq_dashboard.Topic.Config
use go_rocketmq_dashboard.Topic.Config.{
  TopicConfigMutation, IsValid, normalized_idem, validate-iff-IsValid, target_label_of_valid,
}
use go_rocketmq_dashboard.Topic.Delete.{TopicDeleteRequest}
use go_rocketmq_dashboard.Topic.Send
use go_rocketmq_dashboard.Topic.Send.{
  TopicMessageSendRequest, QueueIsSound, validate-send_iff, target_label_of_queue,
}
use go_rocketmq_dashboard.Cache.{TtlCache}

abbrev config : TopicConfigMutation
config = record {
  topic = text " orders ";
  cluster_name = text "main";
  broker_addr = text "  ";
  read_queue_nums = pos 0;
  write_queue_nums = pos 16;
  perm = pos 0;
  order = false;
  unit = false;
  has_unit_sub = false;
  attributes = [];
}

config-IsValid : IsValid config
unfolding text_eq trim_space trim_left trim_right is_space cons_trimmed nat_eq
config-IsValid = record {
  has_topic = λ e. cc;
  one_target = inl (λ e. cc, refl);
  known_perm = inl refl;
}

validate-iff-IsValid_example : (Config.validate config ≡ none) ↔ IsValid config
validate-iff-IsValid_example = validate-iff-IsValid config

abbrev deletion : TopicDeleteRequest
deletion = record { topic = text "\t"; cluster_name = text "main" }

abbrev message : TopicMessageSendRequest
message = record {
  topic = text "orders";
  body = text " paid ";
  keys = [];
  tags = [];
  broker_name = text " broker-a";
  queue_id = some (pos 3);
  trace_enable = true;
}

validate-send_iff_example : (Send.validate message ≡ none) ↔ (
    (trim_space message.topic ≢ [])
    × (trim_space message.body ≢ [])
    × QueueIsSound message.queue_id (trim_space message.broker_name))
validate-send_iff_example = validate-send_iff message

message_accepted : Send.validate message ≡ none
unfolding trim_space trim_left trim_right is_space cons_trimmed nat_eq
message_accepted = (validate-send_iff message).1 (λ e. cc, λ e. cc, (refl, λ e. cc))

abbrev cache : TtlCache Text
cache = record { entry = none; ttl = 5 }
