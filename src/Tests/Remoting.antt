-- ===== src/Tests/Remoting.antt =====
-- The computations of remoting_client.go at concrete inputs.
use go_rocketmq_dashboard.Base.{
  ℕ, ◌+◌, ◌*◌, ◌/◌, ◌-◌, ◌^◌, ◌<◌, ◌≤◌, ◌≡◌, ◌≢◌, ◌↔◌, ◌==◌, if◌then◌else◌, ◌⊎◌, inl, refl, true,
  false, none, some, Option, List, [], ◌∷◌, ◌++◌, map, All, length, text_eq, nat_eq, ltb, arith,
}
use go_rocketmq_dashboard.Base.Int.{pos, negsuc}
use go_rocketmq_dashboard.Base.Text.{Text, text}
use go_rocketmq_dashboard.Remoting.JavaOrder.{
  MessageQueueIdentity, java_hash_map_capacity, java_hash_map_capacity_ends, java_string_hash,
}
use go_rocketmq_dashboard.Remoting.Allocation.{
  AllocateMqAssignment, QueueData, assign_each, subscribe_queues, allocate_message_queue_averagely,
}
use go_rocketmq_dashboard.Remoting.Allocation.Partition.{
  AreDistinct, all_queues, IsFair, assign_each-IsFair, assign_each_panics_iff,
}
use go_rocketmq_dashboard.Remoting.Frame.{
  encode_command, decode_command, command_read, frame_panics,
}
use go_rocketmq_dashboard.Remoting.Frame.Header.{
  Bytes, RemotingCommand, decode_rocketmq_remoting_header, header_command,
}
use go_rocketmq_dashboard.Remoting.Frame.RoundTrip.{decode-encode_command}
use go_rocketmq_dashboard.Remoting.Frame.Total.{decode_command_total}
use go_rocketmq_dashboard.Remoting.MessageId.{create_message_id, decode_offset_message_id}
use go_rocketmq_dashboard.Remoting.MessageId.RoundTrip.{decode-create_message_id}
use go_rocketmq_dashboard.Remoting.Properties.{encode_message_properties, decode_message_properties}
use go_rocketmq_dashboard.Remoting.Properties.RoundTrip.{IsPlain, decode-encode_message_properties}

-- `"Aa"` and `"BB"` have one hash in Java.
hash_of_aa : java_string_hash (text "Aa") ≡ 2112
unfolding java_string_hash
hash_of_aa = refl

hash_of_bb : java_string_hash (text "BB") ≡ 2112
unfolding java_string_hash
hash_of_bb = refl

capacity_of_13 : java_hash_map_capacity 13 ≡ 32
unfolding java_hash_map_capacity
capacity_of_13 = refl

java_hash_map_capacity_ends_example :
    (k : ℕ) × (java_hash_map_capacity 100 ≡ 16 * 2 ^ k)
    × (100 ≤ java_hash_map_capacity 100 * 3 / 4)
    × ((k ≡ 0) ⊎ (16 * 2 ^ (k - 1) * 3 / 4 < 100))
java_hash_map_capacity_ends_example = java_hash_map_capacity_ends 100

abbrev queue : ℕ → MessageQueueIdentity
queue i = record { topic = text "t"; broker_name = text "b"; queue_id = pos i }

abbrev five_queues : List MessageQueueIdentity
five_queues = queue 0 ∷ queue 1 ∷ queue 2 ∷ queue 3 ∷ queue 4 ∷ []

abbrev two_clients : List Text
two_clients = text "10.0.0.1" ∷ text "10.0.0.2" ∷ []

abbrev three_clients : List Text
three_clients = text "10.0.0.1" ∷ text "10.0.0.2" ∷ text "10.0.0.3" ∷ []

route_queues :
    subscribe_queues (text " t ") (
      record { broker_name = text "b"; perm = pos 6; queue_nums = pos 2 }
      ∷ record { broker_name = text "c"; perm = pos 2; queue_nums = pos 2 }
      ∷ [])
    ≡ queue 0 ∷ queue 1 ∷ []
unfolding subscribe_queues nat_eq go_rocketmq_dashboard.Base.Text.trim_right
    go_rocketmq_dashboard.Base.Text.trim_left go_rocketmq_dashboard.Base.Text.is_space
route_queues = refl

two_clients-AreDistinct : AreDistinct two_clients
unfolding text_eq
two_clients-AreDistinct = ((refl, tt), (tt, tt))

three_clients-AreDistinct : AreDistinct three_clients
unfolding text_eq
three_clients-AreDistinct = ((refl, (refl, tt)), ((refl, tt), (tt, tt)))

two_clients-some : two_clients ≢ []
two_clients-some e = cc

assign_each-IsFair_example :
    (result : List AllocateMqAssignment) × (assign_each five_queues two_clients two_clients
      ≡ some result)
    × (map (λ (a : AllocateMqAssignment). a.ip) result ≡ two_clients)
    × (all_queues result ≡ five_queues)
    × All (IsFair (length five_queues) (length two_clients)) result
assign_each-IsFair_example =
    assign_each-IsFair five_queues two_clients two_clients-some two_clients-AreDistinct
      (omega arith)

assign_each_panics_iff_example :
    (assign_each (queue 0 ∷ queue 1 ∷ []) three_clients three_clients ≡ none)
    ↔ ((queue 0 ∷ queue 1 ∷ [] ≢ []) × (length (queue 0 ∷ queue 1 ∷ []) < length three_clients))
assign_each_panics_iff_example =
    assign_each_panics_iff (queue 0 ∷ queue 1 ∷ []) three_clients three_clients-AreDistinct

-- The third client of two queues panics.
third_client_panics :
    allocate_message_queue_averagely (queue 0 ∷ queue 1 ∷ []) three_clients (text "10.0.0.3") ≡ none
unfolding allocate_message_queue_averagely text_eq
    go_rocketmq_dashboard.Remoting.Allocation.with_capacity
    go_rocketmq_dashboard.Remoting.Allocation.start_index
    go_rocketmq_dashboard.Remoting.Allocation.average_size
third_client_panics = refl

abbrev request : RemotingCommand
request = record {
  code = pos 206;
  language = text "JAVA";
  version = pos 0;
  opaque = pos 7;
  flag = pos 0;
  remark = [];
  ext_fields = [];
  body = 1 ∷ 2 ∷ 3 ∷ [];
}

-- A codec that knows the one command.
abbrev marshal : RemotingCommand → Option Bytes
marshal c = some (text "{}")

abbrev unmarshal : Bytes → Option RemotingCommand
unmarshal header = some (record request { body = [] })

abbrev request_frame : Bytes
request_frame = 0 ∷ 0 ∷ 0 ∷ 9 ∷ 0 ∷ 0 ∷ 0 ∷ 2 ∷ b'{' ∷ b'}' ∷ 1 ∷ 2 ∷ 3 ∷ []

request_encoded : encode_command marshal request ≡ some request_frame
unfolding encode_command go_rocketmq_dashboard.Remoting.Frame.put_uint32
request_encoded = refl

decode-encode_command_example :
    decode_command unmarshal (request_frame ++ 9 ∷ 9 ∷ []) ≡ command_read request (9 ∷ 9 ∷ [])
decode-encode_command_example =
    decode-encode_command marshal unmarshal request (text "{}") request_frame (9 ∷ 9 ∷ []) refl refl
      (omega arith) (omega arith) request_encoded

decode_command_total_example : decode_command unmarshal (0 ∷ 0 ∷ 0 ∷ 5 ∷ []) ≢ frame_panics
decode_command_total_example = decode_command_total unmarshal (0 ∷ 0 ∷ 0 ∷ 5 ∷ [])

-- A header with the field k=v and no remark.
abbrev binary_header : Bytes
binary_header =
    0 ∷ 1 ∷ 9 ∷ 0 ∷ 3 ∷ 255 ∷ 255 ∷ 255 ∷ 255 ∷ 0 ∷ 0 ∷ 0 ∷ 1 ∷ 0 ∷ 0 ∷ 0 ∷ 0 ∷ 0 ∷ 0 ∷ 0 ∷ 8 ∷ 0
    ∷ 1 ∷ b'k' ∷ 0 ∷ 0 ∷ 0 ∷ 1 ∷ b'v' ∷ []

binary_header_read :
    decode_rocketmq_remoting_header binary_header
    ≡ header_command (record {
      code = pos 1;
      language = text "GO";
      version = pos 3;
      opaque = negsuc 0;
      flag = pos 1;
      remark = [];
      ext_fields = (text "k", text "v") ∷ [];
      body = [];
    })
unfolding decode_rocketmq_remoting_header nat_eq
binary_header_read = refl

keys-IsPlain : IsPlain (text "KEYS", text "order 1")
unfolding nat_eq
keys-IsPlain = (
  λ e. cc,
  λ e. cc,
  (refl, (refl, (refl, (refl, tt)))),
  (refl, (refl, (refl, (refl, tt)))),
  (refl, (refl, (refl, (refl, (refl, (refl, (refl, tt))))))),
)

tags-IsPlain : IsPlain (text "TAGS", text "a")
unfolding nat_eq
tags-IsPlain = (
  λ e. cc,
  λ e. cc,
  (refl, (refl, (refl, (refl, tt)))),
  (refl, (refl, (refl, (refl, tt)))),
  (refl, tt),
)

decode-encode_message_properties_example :
    decode_message_properties
      (encode_message_properties ((text "KEYS", text "order 1") ∷ (text "TAGS", text "a") ∷ []))
    ≡ (text "KEYS", text "order 1") ∷ (text "TAGS", text "a") ∷ []
unfolding text_eq go_rocketmq_dashboard.Base.Text.is_space nat_eq
decode-encode_message_properties_example =
    decode-encode_message_properties ((text "KEYS", text "order 1") ∷ (text "TAGS", text "a") ∷ [])
      (keys-IsPlain, (tags-IsPlain, tt)) ((refl, tt), (tt, tt)) refl

abbrev localhost : Bytes
localhost = 127 ∷ 0 ∷ 0 ∷ 1 ∷ []

abbrev printed_host : Bytes → ℕ → Text
printed_host ip port = if port == 10911 then text "127.0.0.1:10911" else []

message_id_of_localhost :
    create_message_id localhost (pos 10911) (pos 4096) ≡ text "7F00000100002A9F0000000000001000"
unfolding nat_eq create_message_id go_rocketmq_dashboard.Remoting.MessageId.encode_hex
    go_rocketmq_dashboard.Remoting.Frame.put_uint32
    go_rocketmq_dashboard.Remoting.MessageId.put_uint64
message_id_of_localhost = refl

decode-create_message_id_example :
    decode_offset_message_id printed_host (create_message_id localhost (pos 10911) (pos 4096))
    ≡ some (text "127.0.0.1:10911", pos 4096)
unfolding nat_eq
decode-create_message_id_example =
    decode-create_message_id printed_host localhost 10911 (pos 4096) (inl refl)
      (omega arith, (omega arith, (omega arith, (omega arith, tt)))) (omega arith) (omega arith)
