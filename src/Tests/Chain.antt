-- ===== src/Tests/Chain.antt =====
-- The chain of a message at concrete inputs.
use mathlib.Core.List.{Perm}
use go_rocketmq_dashboard.Base.{
  ◌≡◌, refl, false, List, [], ◌∷◌, ◌++◌, map, filter, nat_eq, text_eq, arith,
}
use go_rocketmq_dashboard.Base.Int.{pos, negsuc, int_eq, int64_min}
use go_rocketmq_dashboard.Base.Text.{text}
use go_rocketmq_dashboard.Chain.{
  MessageDetail, TraceEvent, ConsumerState, MessageStatusStep, latest_timestamp, stored_step,
  trace_step, offset_step, build_message_status_chain,
}
use go_rocketmq_dashboard.Chain.Numbers.{string_from_int, emit_magnitude}
use go_rocketmq_dashboard.Chain.Numbers.RoundTrip.{read_int, read_int-string_from_int}
use go_rocketmq_dashboard.Chain.Timeline.{
  untraced, steps-perm, IsTimeline, same_slot, steps-IsTimeline,
}
use go_rocketmq_dashboard.Chain.Status.{IsLastBusiness, overall_status-IsLastBusiness}

abbrev message : MessageDetail
message = record {
  message_id = text "0A01";
  topic = text "orders";
  broker_name = text "broker-a";
  keys = text "order-1" ∷ [];
  trace_message_id = [];
  trace_parent = [];
  store_timestamp = pos 1000;
  queue_id = pos 2;
  queue_offset = pos 17;
  reconsume_times = pos 0;
  system_flag = pos 0;
  transaction = record {
    enabled = false;
    state = [];
    transaction_id = [];
    producer_group = [];
    real_topic = [];
    real_queue_id = pos 0;
    has_real_queue_id = false;
    check_times = pos 0;
    has_check_times = false;
  };
  born_host = [];
  store_host = [];
  body_preview = [];
}

-- The billing group has consumed the message; the audit group is behind.
abbrev traces : List TraceEvent
traces =
    record {
      stage = text "CONSUME_SUCCESS";
      group = text "billing";
      timestamp = pos 1300;
      detail = [];
    }
    ∷ record {
      stage = text "SEND_SUCCESS";
      group = text "producer";
      timestamp = pos 1000;
      detail = [];
    }
    ∷ []

abbrev offsets : List ConsumerState
offsets =
    record { group = text "billing"; topic = text "orders"; status = text "PENDING"; lag = pos 4 }
    ∷ record { group = text "audit"; topic = text "orders"; status = text "PENDING"; lag = pos 12 }
    ∷ []

steps-perm_example : Perm (build_message_status_chain message traces offsets).steps (
    stored_step message ∷ map trace_step traces
    ++ map (offset_step (latest_timestamp (pos 1000) traces)) (untraced traces offsets))
steps-perm_example = steps-perm message traces offsets

steps-IsTimeline_example :
    IsTimeline (build_message_status_chain message traces offsets).steps
    × ((step : MessageStatusStep)
        → filter (same_slot step) (build_message_status_chain message traces offsets).steps
          ≡ filter (same_slot step) (
              stored_step message ∷ map trace_step traces
              ++ map (offset_step (latest_timestamp (pos 1000) traces)) (untraced traces offsets)))
steps-IsTimeline_example = steps-IsTimeline message traces offsets

overall_status-IsLastBusiness_example :
    IsLastBusiness
      (build_message_status_chain message traces offsets).steps
      (build_message_status_chain message traces offsets).overall_status
overall_status-IsLastBusiness_example = overall_status-IsLastBusiness message traces offsets

read_int-string_from_int_example : read_int (string_from_int (negsuc 41)) ≡ negsuc 41
read_int-string_from_int_example =
    read_int-string_from_int (negsuc 41) (omega arith) (λ e. ground arith)

-- The least number has no print: its opposite does not fit, and no digit is written.
min_int_is_lost : string_from_int int64_min ≡ text "-"
unfolding string_from_int int_eq emit_magnitude nat_eq
min_int_is_lost = refl
