-- ===== src/Remoting/Allocation.antt =====
-- internal/rocketmq/goadmin/remoting_client.go: the queues of a topic route, and their allocation
-- to the consumers of `allocateMQ`.
pub mod Collect
pub mod Partition
use go_rocketmq_dashboard.Base.{
  ℕ, zero, suc, ◌+◌, ◌*◌, ◌/◌, ◌%◌, Bool, true, false, not, ◌&&◌, ◌||◌, if◌then◌else◌, ltb, leb,
  ◌==◌, List, [], ◌∷◌, ◌++◌, nat_eq, text_eq, contains, length, is_nil, get_elem?, Option, none,
  some,
}
use go_rocketmq_dashboard.Base.Dict
use go_rocketmq_dashboard.Base.Dict.{Dict}
use go_rocketmq_dashboard.Base.Int.{ℤ, pos, negsuc, sub_ℕ, lt_int}
use go_rocketmq_dashboard.Base.Sort.{sort_stable}
use go_rocketmq_dashboard.Base.Text.{Text, text, text_less, trim_space, split_on}
use go_rocketmq_dashboard.Remoting.JavaOrder.{
  MessageQueueIdentity, java_hash_set_ordered_message_queues,
}

-- A queue entry of a decoded route, with the number that counts: of read queues for a consumer, of
-- write queues for a producer.
pub record QueueData : Type 0 where
  pub broker_name : Text
  pub perm : ℤ
  pub queue_nums : ℤ

pub record BrokerData : Type 0 where
  pub broker_name : Text
  pub broker_addrs : Dict Text Text

-- `perm & bit == bit` for a power of two, also of a negative number.
abbrev pub has_bit : ℤ → ℕ → Bool
has_bit (pos n) bit = (n / bit) % 2 == 1
has_bit (negsuc n) bit = (n / bit) % 2 == 0

-- `for queueID := first; queueID < first + rounds; queueID++`
unfoldable pub number_queues : Text → Text → ℕ → ℕ → List MessageQueueIdentity
number_queues topic broker first zero = []
number_queues topic broker first (suc rounds) =
    record { topic = trim_space topic; broker_name = broker; queue_id = pos first }
    ∷ number_queues topic broker (suc first) rounds

abbrev pub loop_rounds : ℤ → ℕ
loop_rounds (pos n) = n
loop_rounds (negsuc n) = 0

unfoldable pub subscribe_queues : Text → List QueueData → List MessageQueueIdentity
unfolding number_queues trim_space
subscribe_queues topic [] = []
subscribe_queues topic (d ∷ ds) =
    let rest = subscribe_queues topic ds in
    if not (has_bit d.perm 4)
    then rest
    else number_queues topic d.broker_name 0 (loop_rounds d.queue_nums) ++ rest

-- After the route's JSON is decoded.
unfoldable pub decode_topic_route_subscribe_queues :
    Text → List QueueData → List MessageQueueIdentity
unfolding subscribe_queues java_hash_set_ordered_message_queues
decode_topic_route_subscribe_queues topic queue_datas =
    java_hash_set_ordered_message_queues (subscribe_queues topic queue_datas)

-- The broker names of `hasMaster`.
unfoldable pub master_names : List BrokerData → List Text
unfolding Dict.lookup trim_space
master_names [] = []
master_names (b ∷ bs) =
    let rest = master_names bs in
    elim (Dict.lookup (text "0") b.broker_addrs) [
      | none ↦ rest
      | some address ↦ if trim_space address == [] then rest else b.broker_name ∷ rest
    ]

unfoldable pub publish_queues : Text → List Text → List QueueData → List MessageQueueIdentity
unfolding number_queues trim_space
publish_queues topic masters [] = []
publish_queues topic masters (d ∷ ds) =
    let rest = publish_queues topic masters ds in
    if not (has_bit d.perm 2) || not (contains masters d.broker_name)
    then rest
    else number_queues topic d.broker_name 0 (loop_rounds d.queue_nums) ++ rest

unfoldable pub decode_topic_route_publish_queues :
    Text → List BrokerData → List QueueData → List MessageQueueIdentity
unfolding publish_queues master_names sort_stable text_less
decode_topic_route_publish_queues topic broker_datas queue_datas =
    publish_queues topic (master_names broker_datas)
      (sort_stable (λ left right. text_less left.broker_name right.broker_name) queue_datas)

-- The search for the client's index, which starts at -1.
unfoldable pub index_from : ℕ → Text → List Text → Option ℕ
index_from i current [] = none
index_from i current (cid ∷ cids) =
    let later = index_from (suc i) current cids in if cid == current then some i else later

-- `mqAll[(startIndex+offset)%len(mqAll)]` for each offset. `none` is an index out of range.
unfoldable pub collect : List MessageQueueIdentity → ℕ → ℕ → Option (List MessageQueueIdentity)
collect mq_all i zero = some []
collect mq_all i (suc rounds) = elim (get_elem? mq_all (i % length mq_all)) [
  | none ↦ none
  | some queue ↦ elim (collect mq_all (suc i) rounds) [
    | none ↦ none
    | some queues ↦ some (queue ∷ queues)
  ]
]

unfoldable pub average_size : ℕ → ℕ → ℕ → ℕ
average_size queues clients index =
    if ltb clients queues
    then if ltb 0 (queues % clients) && ltb index (queues % clients)
      then suc (queues / clients)
      else queues / clients
    else 1

unfoldable pub start_index : ℕ → ℕ → ℕ → ℕ
start_index queues clients index =
    if ltb 0 (queues % clients) && leb (queues % clients) index
    then index * average_size queues clients index + queues % clients
    else index * average_size queues clients index

-- `make([]messageQueueIdentity, 0, count)` panics at a negative count: `none`.
unfoldable pub with_capacity :
    ℤ → List MessageQueueIdentity → ℕ → Option (List MessageQueueIdentity)
unfolding collect
with_capacity (pos count) mq_all start = collect mq_all start count
with_capacity (negsuc _) mq_all start = none

unfoldable pub allocate_at : List MessageQueueIdentity → ℕ → ℕ → Option (List MessageQueueIdentity)
allocate_at mq_all clients index =
    let size = average_size (length mq_all) clients index in
    let start = start_index (length mq_all) clients index in
    let remaining = sub_ℕ (length mq_all) start in
    with_capacity (if lt_int remaining (pos size) then remaining else pos size) mq_all start

unfoldable pub allocate_message_queue_averagely :
    List MessageQueueIdentity → List Text → Text → Option (List MessageQueueIdentity)
unfolding index_from allocate_at
allocate_message_queue_averagely mq_all cid_all current = elim (index_from 0 current cid_all) [
  | none ↦ some []
  | some index ↦
      if is_nil mq_all || is_nil cid_all then some [] else allocate_at mq_all (length cid_all) index
]

pub record AllocateMqAssignment : Type 0 where
  pub ip : Text
  pub queues : List MessageQueueIdentity

-- The loop over the clients; `none` is a panic of one of them.
unfoldable pub assign_each :
    List MessageQueueIdentity → List Text → List Text → Option (List AllocateMqAssignment)
unfolding allocate_message_queue_averagely
assign_each queues ips [] = some []
assign_each queues ips (ip ∷ rest) = elim (allocate_message_queue_averagely queues ips ip) [
  | none ↦ none
  | some own ↦ elim (assign_each queues ips rest) [
    | none ↦ none
    | some others ↦ some (record { ip = ip; queues = own } ∷ others)
  ]
]

unfoldable pub allocate_mq_assignments_from_route :
    Text → Text → List QueueData → Option (List AllocateMqAssignment)
unfolding decode_topic_route_subscribe_queues split_on assign_each trim_space
allocate_mq_assignments_from_route topic ip_list queue_datas =
    let ips = split_on b',' (trim_space ip_list) in
    assign_each (decode_topic_route_subscribe_queues topic queue_datas) ips ips
