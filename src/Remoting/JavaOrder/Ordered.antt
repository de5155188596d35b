-- ===== src/Remoting/JavaOrder/Ordered.antt =====
-- The two lists that stand for a Java `HashSet`: no element twice, and the buckets in order.
use go_rocketmq_dashboard.Base.{
  ℕ, ◌≡◌, ◌∙◌, if◌then◌else◌, ltb, ◌==◌, List, [], text_eq, any, count, length, arith,
}
use go_rocketmq_dashboard.Base.Sort.{
  IsWeakOrder, IsSorted, sort_stable, sort_stable-IsSorted, count-sort_stable,
}
use go_rocketmq_dashboard.Base.Text.{Text}
use go_rocketmq_dashboard.Remoting.JavaOrder.{
  MessageQueueIdentity, queue_key, compacted, count-compacted, java_hash_map_capacity,
  java_message_queue_hash_map_bucket, java_hash_map_bucket_with_capacity,
  java_hash_set_ordered_message_queues, java_hash_set_ordered_strings,
}

module _ {ℓ} {A : Type ℓ} (bucket : A → ℕ) where
  by_bucket-IsWeakOrder : IsWeakOrder (λ a b. ltb (bucket a) (bucket b))
  by_bucket-IsWeakOrder = record {
    asymm = λ a b h. ground arith;
    trans = λ a b c h k. ground arith;
  }

  ordered_lem :
      (key : A → Text) (xs : List A)
      → let l = sort_stable (λ a b. ltb (bucket a) (bucket b)) (compacted key [] xs) in
        IsSorted (λ a b. ltb (bucket a) (bucket b)) l
        × ((k : Text) → count (λ x. key x == k) l ≡ (if any (λ x. key x == k) xs then 1 else 0))
  ordered_lem key xs =
      let less = λ (a b : A). ltb (bucket a) (bucket b) in
      (
        sort_stable-IsSorted less by_bucket-IsWeakOrder (compacted key [] xs),
        λ k.
            count-sort_stable less (λ x. key x == k) (compacted key [] xs)
            ∙ count-compacted key k [] xs,
      )

-- The bucket of a queue in the table that holds the distinct ones of a list.
abbrev pub queue_bucket : List MessageQueueIdentity → MessageQueueIdentity → ℕ
queue_bucket queues queue =
    java_message_queue_hash_map_bucket queue
      (java_hash_map_capacity (length (compacted queue_key [] queues)))

abbrev pub string_bucket : List Text → Text → ℕ
string_bucket values value =
    java_hash_map_bucket_with_capacity value
      (java_hash_map_capacity (length (compacted (λ v. v) [] values)))

-- The queues stand in the order of their buckets, and each key of the input is there exactly once,
-- and no other.
pub java_hash_set_ordered_message_queues_lem :
    (queues : List MessageQueueIdentity)
    → IsSorted
        (λ a b. ltb (queue_bucket queues a) (queue_bucket queues b))
        (java_hash_set_ordered_message_queues queues)
      × ((k : Text)
          → count (λ q. queue_key q == k) (java_hash_set_ordered_message_queues queues)
            ≡ (if any (λ q. queue_key q == k) queues then 1 else 0))
unfolding java_hash_set_ordered_message_queues
java_hash_set_ordered_message_queues_lem queues = ordered_lem (queue_bucket queues) queue_key queues

-- The same of the texts.
pub java_hash_set_ordered_strings_lem :
    (values : List Text)
    → IsSorted
        (λ a b. ltb (string_bucket values a) (string_bucket values b))
        (java_hash_set_ordered_strings values)
      × ((k : Text)
          → count (λ v. v == k) (java_hash_set_ordered_strings values)
            ≡ (if any (λ v. v == k) values then 1 else 0))
unfolding java_hash_set_ordered_strings
java_hash_set_ordered_strings_lem values = ordered_lem (string_bucket values) (λ v. v) values
