-- ===== src/Topic/Refusal.antt =====
-- The errors of topic_mutation.go, a constructor for each message; `nil` is `none`.
pub data Refusal : Type 0 where
  topic_required group_required body_required cluster_name_required : Refusal
  one_of_cluster_and_broker perm_unsupported : Refusal
  queue_id_negative broker_name_required : Refusal
  broker_and_queue_together offset_needs_queue : Refusal
