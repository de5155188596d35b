-- ===== src/Remoting/JavaOrder.antt =====
-- internal/rocketmq/goadmin/remoting_client.go: the iteration order of a Java `HashMap`, which the
-- client's output follows: string hashes, buckets, the table's capacity, and the three lists that
-- are brought into that order.
pub mod Capacity
pub mod Distinct
pub mod Ordered
use go_rocketmq_dashboard.Base.{
  ℕ, zero, suc, ◌+◌, ◌-◌, ◌*◌, ◌/◌, ◌%◌, ◌^◌, Bool, true, false, if◌then◌else◌, ltb, ◌==◌, List, [],
  ◌∷◌, ◌++◌, map, text_eq, contains, length,
}
use go_rocketmq_dashboard.Base.Dict
use go_rocketmq_dashboard.Base.Dict.{Dict}
use go_rocketmq_dashboard.Base.Int.{ℤ, pos, negsuc}
use go_rocketmq_dashboard.Base.Itoa.{itoa}
use go_rocketmq_dashboard.Base.Sort.{sort_stable}
use go_rocketmq_dashboard.Base.Text.{Text}
use Prim.Native.Nat.{bit_and, bit_xor}
unfoldable pub use Capacity.*
unfoldable pub use Distinct.*

pub record MessageQueueIdentity : Type 0 where
  pub topic : Text
  pub broker_name : Text
  pub queue_id : ℤ

-- `uint32(value)`
abbrev pub to_uint32 : ℤ → ℕ
to_uint32 (pos n) = n % 2 ^ 32
to_uint32 (negsuc n) = 2 ^ 32 - 1 - n % 2 ^ 32

-- `utf16.Encode([]rune(value))`
unfoldable pub utf16_encode : Text → Text
utf16_encode [] = []
utf16_encode (c ∷ cs) =
    let rest = utf16_encode cs in
    if ltb c 0x10000
    then c ∷ rest
    else (0xd800 + (c - 0x10000) / 0x400) ∷ (0xdc00 + (c - 0x10000) % 0x400) ∷ rest

-- The loop over the code units, on an `int32` that is kept as its bit pattern.
unfoldable pub hash_units : ℕ → List ℕ → ℕ
hash_units hash [] = hash
hash_units hash (unit ∷ units) = hash_units ((31 * hash + unit) % 2 ^ 32) units

unfoldable pub java_string_hash : Text → ℕ
unfolding hash_units utf16_encode
java_string_hash value = hash_units 0 (utf16_encode value)

-- `spread & uint32(capacity-1)`
unfoldable pub spread_bucket : ℕ → ℕ → ℕ
spread_bucket hash capacity = bit_and (bit_xor hash (hash / 2 ^ 16)) (capacity - 1)

unfoldable pub java_hash_map_bucket_with_capacity : Text → ℕ → ℕ
unfolding java_string_hash spread_bucket
java_hash_map_bucket_with_capacity key capacity = spread_bucket (java_string_hash key) capacity

unfoldable pub java_message_queue_hash : MessageQueueIdentity → ℕ
unfolding java_string_hash
java_message_queue_hash queue =
    let broker = (31 * 1 + java_string_hash queue.broker_name) % 2 ^ 32 in
    let with_id = (31 * broker + to_uint32 queue.queue_id) % 2 ^ 32 in
    (31 * with_id + java_string_hash queue.topic) % 2 ^ 32

unfoldable pub java_message_queue_hash_map_bucket : MessageQueueIdentity → ℕ → ℕ
unfolding java_message_queue_hash spread_bucket
java_message_queue_hash_map_bucket queue capacity =
    spread_bucket (java_message_queue_hash queue) capacity

-- `fmt.Sprintf("%s\x00%s\x00%d", ...)`
unfoldable pub queue_key : MessageQueueIdentity → Text
unfolding itoa
queue_key queue = queue.topic ++ (0 ∷ (queue.broker_name ++ (0 ∷ itoa queue.queue_id)))

unfoldable pub java_hash_set_ordered_message_queues :
    List MessageQueueIdentity → List MessageQueueIdentity
unfolding java_message_queue_hash_map_bucket queue_key compacted java_hash_map_capacity sort_stable
java_hash_set_ordered_message_queues queues =
    let distinct = compacted queue_key [] queues in
    let capacity = java_hash_map_capacity (length distinct) in
    sort_stable
      (λ left right.
        ltb (java_message_queue_hash_map_bucket left capacity)
          (java_message_queue_hash_map_bucket right capacity))
      distinct

unfoldable pub java_hash_set_ordered_strings : List Text → List Text
unfolding java_hash_map_bucket_with_capacity compacted java_hash_map_capacity sort_stable
java_hash_set_ordered_strings values =
    let distinct = compacted (λ value. value) [] values in
    let capacity = java_hash_map_capacity (length distinct) in
    sort_stable
      (λ left right.
        ltb (java_hash_map_bucket_with_capacity left capacity)
          (java_hash_map_bucket_with_capacity right capacity))
      distinct

-- A later value of a key replaces the earlier one in its place.
unfoldable pub compact_properties : Dict Text Text → Dict Text Text → Dict Text Text
unfolding Dict.insert
compact_properties done [] = done
compact_properties done ((key, value) ∷ rest) = compact_properties (Dict.insert key value done) rest

unfoldable pub java_hash_map_ordered_properties : Dict Text Text → Dict Text Text
unfolding compact_properties java_hash_map_bucket_with_capacity sort_stable
java_hash_map_ordered_properties properties =
    sort_stable
      (λ left right.
        ltb (java_hash_map_bucket_with_capacity left.0 128)
          (java_hash_map_bucket_with_capacity right.0 128))
      (compact_properties [] properties)
