-- ===== src/Topic/Config.antt =====
-- `TopicConfigMutation` of topic_mutation.go.
use go_rocketmq_dashboard.Base.{
  Bool, not, ◌&&◌, ◌||◌, Option, none, some, [], if◌then◌else◌, ◌==◌, text_eq, ◌≡◌, ◌≢◌, ◌↔◌, ◌⊎◌,
  arith,
}
use go_rocketmq_dashboard.Base.Int.{ℤ, pos, lt_int, int_eq}
use go_rocketmq_dashboard.Base.Text.{Text, trim_space, trim_space_idem}
use go_rocketmq_dashboard.Topic.Refusal.{
  Refusal, topic_required, one_of_cluster_and_broker, perm_unsupported,
}

pub record TopicConfigMutation : Type 0 where
  pub topic : Text
  pub cluster_name : Text
  pub broker_addr : Text
  pub read_queue_nums : ℤ
  pub write_queue_nums : ℤ
  pub perm : ℤ
  pub order : Bool
  pub unit : Bool
  pub has_unit_sub : Bool
  pub attributes : Text

-- `n <= 0` takes the default 8.
queue_nums_or_default : ℤ → ℤ
queue_nums_or_default n = if lt_int (pos 0) n then n else pos 8

pub normalized : TopicConfigMutation → TopicConfigMutation
unfolding queue_nums_or_default
normalized r = record r {
  topic = trim_space r.topic;
  cluster_name = trim_space r.cluster_name;
  broker_addr = trim_space r.broker_addr;
  attributes = trim_space r.attributes;
  read_queue_nums = queue_nums_or_default r.read_queue_nums;
  write_queue_nums = queue_nums_or_default r.write_queue_nums;
  perm = if r.perm == pos 0 then pos 6 else r.perm;
}

-- The checks of `Validate`, on the normalized request.
check : TopicConfigMutation → Option Refusal
check r =
    let has_cluster = not (r.cluster_name == []) in
    let has_broker = not (r.broker_addr == []) in
    if r.topic == []
    then some topic_required
    else if (has_cluster && has_broker) || (not has_cluster && not has_broker)
    then some one_of_cluster_and_broker
    else if not (r.perm == pos 2) && not (r.perm == pos 4) && not (r.perm == pos 6)
    then some perm_unsupported
    else none

pub validate : TopicConfigMutation → Option Refusal
unfolding check
validate r = check (normalized r)

pub target_label : TopicConfigMutation → Text
target_label r =
    let n = normalized r in if not (n.cluster_name == []) then n.cluster_name else n.broker_addr

queue_nums_or_default_idem :
    (n : ℤ) → queue_nums_or_default (queue_nums_or_default n) ≡ queue_nums_or_default n
unfolding queue_nums_or_default
queue_nums_or_default_idem n = ground arith

perm_idem :
    (p : ℤ)
    → (if (if p == pos 0 then pos 6 else p) == pos 0
        then pos 6
        else if p == pos 0
        then pos 6
        else p)
      ≡ (if p == pos 0 then pos 6 else p)
perm_idem p = ground arith

-- Filling in the defaults twice is doing so once.
pub normalized_idem : (r : TopicConfigMutation) → normalized (normalized r) ≡ normalized r
unfolding normalized
normalized_idem r = λ i. record r {
  topic = trim_space_idem r.topic i;
  cluster_name = trim_space_idem r.cluster_name i;
  broker_addr = trim_space_idem r.broker_addr i;
  attributes = trim_space_idem r.attributes i;
  read_queue_nums = queue_nums_or_default_idem r.read_queue_nums i;
  write_queue_nums = queue_nums_or_default_idem r.write_queue_nums i;
  perm = perm_idem r.perm i;
}

-- What a request must be to be sent on: it has a topic, one target, and a permission of the three.
pub record IsValid (r : TopicConfigMutation) : Type 0 where
  pub has_topic : trim_space r.topic ≢ []
  pub one_target :
      ((trim_space r.cluster_name ≢ []) × (trim_space r.broker_addr ≡ []))
      ⊎ ((trim_space r.cluster_name ≡ []) × (trim_space r.broker_addr ≢ []))
  pub known_perm : (r.perm ≡ pos 0) ⊎ ((r.perm ≡ pos 2) ⊎ ((r.perm ≡ pos 4) ⊎ (r.perm ≡ pos 6)))

-- `Validate` accepts a request exactly when it has a topic, a cluster or a broker and not both, and
-- a permission 2, 4 or 6, or 0, which stands for 6; names of spaces count as missing.
pub validate-iff-IsValid : (r : TopicConfigMutation) → (validate r ≡ none) ↔ IsValid r
unfolding validate normalized
validate-iff-IsValid r = (λ h. ground arith, λ v. ground arith)

-- The label of a request that is accepted is its one target.
pub target_label_of_valid :
    (r : TopicConfigMutation)
    → validate r ≡ none
    → (target_label r ≢ [])
      × ((target_label r ≡ trim_space r.cluster_name) ⊎ (target_label r ≡ trim_space r.broker_addr))
unfolding validate normalized target_label
target_label_of_valid r h = ground arith
