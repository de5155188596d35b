-- ===== src/Registry/Definition.antt =====
-- `ClusterDefinition` (cluster_runtime.go) and its normalization (cluster_registry.go). Package
-- `net` is a parameter: `canonical_ip` is `net.ParseIP` followed by `String`, `none` where it is
-- nil, and `split_host_port` is the host of `net.SplitHostPort`, `none` where that fails.
pub mod Mappings
use go_rocketmq_dashboard.Base.{
  ℕ, Bool, true, false, not, ◌&&◌, ◌||◌, Option, none, some, List, [], ◌∷◌, ◌++◌, if◌then◌else◌,
  leb, ◌==◌, nat_eq, text_eq, any, length, ◌≡◌, refl,
}
use mathlib.Core.List.{reverse}
use go_rocketmq_dashboard.Base.Sort.{sort_stable}
use go_rocketmq_dashboard.Base.Text.{Text, text_less, trim_space, to_lower, contains_any, split_on}

pub record BrokerAddressMapping : Type 0 where
  pub host : Text
  pub ip : Text

pub record ClusterDefinition : Type 0 where
  pub id : Text
  pub label : Text
  pub name_server : Text
  pub broker_address_mappings : List BrokerAddressMapping

-- The errors, a constructor for each message.
pub data DefinitionError : Type 0 where
  id_malformed name_server_required name_server_multiline : DefinitionError
  mapping_host_invalid mapping_ip_invalid mapping_host_repeated : Text → DefinitionError
  name_server_host_unmapped id_repeated : Text → DefinitionError

pub data Normalized (A : Type 0) : Type 0 where
  ok : A → Normalized A
  err : DefinitionError → Normalized A

-- The next step, where the one before has not failed.
abbrev pub continue : {A B : Type 0} → Normalized A → (A → Normalized B) → Normalized B
continue (err failure) next = err failure
continue (ok value) next = next value

-- A chain that ends well has gone through its first step.
pub continue_ok :
    {A B : Type 0} (first : Normalized A) (next : A → Normalized B) {last : B}
    → continue first next ≡ ok last
    → (value : A) × (first ≡ ok value) × (next value ≡ ok last)
continue_ok (err failure) next ends = cc
continue_ok (ok value) next ends = (value, refl, ends)

abbrev is_alnum : ℕ → Bool
is_alnum c = (leb b'A' c && leb c b'Z') || (leb b'a' c && leb c b'z') || (leb b'0' c && leb c b'9')

abbrev all_chars : (ℕ → Bool) → Text → Bool
all_chars p [] = true
all_chars p (c ∷ s) = p c && all_chars p s

-- `clusterIDPattern`: ^[A-Za-z0-9][A-Za-z0-9._-]{0,63}$
unfoldable pub matches_cluster_id : Text → Bool
matches_cluster_id [] = false
matches_cluster_id (c ∷ s) =
    is_alnum c
    && all_chars (λ d. is_alnum d || d == b'.' || d == b'_' || d == b'-') s
    && leb (length s) 63

-- `brokerHostPattern`: ^[A-Za-z0-9][A-Za-z0-9.-]{0,252}$
unfoldable pub matches_broker_host : Text → Bool
matches_broker_host [] = false
matches_broker_host (c ∷ s) =
    is_alnum c && all_chars (λ d. is_alnum d || d == b'.' || d == b'-') s && leb (length s) 252

-- `strings.Trim(s, "[]")`
unfoldable pub is_bracket : ℕ → Bool
is_bracket c = c == b'[' || c == b']'

unfoldable pub drop_brackets : Text → Text
unfolding is_bracket
drop_brackets [] = []
drop_brackets (c ∷ s) = if is_bracket c then drop_brackets s else c ∷ s

unfoldable pub trim_brackets : Text → Text
unfolding drop_brackets
trim_brackets s = reverse (drop_brackets (reverse (drop_brackets s)))

-- The part in front of the last colon, if there is a colon behind the first place.
unfoldable pub before_last_colon : Text → Option Text
before_last_colon [] = none
before_last_colon (c ∷ s) = elim (before_last_colon s) [
  | some front ↦ some (c ∷ front)
  | none ↦ if c == b':' then some [] else none
]

pub record Net : Type 0 where
  pub canonical_ip : Text → Option Text
  pub split_host_port : Text → Option Text

unfoldable pub is_ip : Net → Text → Bool
is_ip net s = elim (net.canonical_ip s) [ none ↦ false | some _ ↦ true ]

-- `nameServerHost`
unfoldable pub host_without_port : Text → Option Text → Text
host_without_port endpoint none = trim_brackets endpoint
host_without_port endpoint (some []) = trim_brackets endpoint
host_without_port endpoint (some (c ∷ front)) = trim_brackets (c ∷ front)

unfoldable pub name_server_host : Net → Text → Text
unfolding host_without_port before_last_colon
name_server_host net raw =
    let endpoint = trim_space raw in
    if endpoint == [] then [] else elim (net.split_host_port endpoint) [
      | some host ↦ trim_brackets host
      | none ↦ host_without_port endpoint (before_last_colon endpoint)
    ]

-- One mapping, as it enters the list.
unfoldable pub normalize_mapping : Net → BrokerAddressMapping → Normalized BrokerAddressMapping
normalize_mapping net mapping =
    let host = to_lower (trim_space mapping.host) in
    if not (matches_broker_host host) || is_ip net host
    then err (mapping_host_invalid mapping.host)
    else elim (net.canonical_ip (trim_space mapping.ip)) [
      | none ↦ err (mapping_ip_invalid mapping.ip)
      | some ip ↦ ok (record { host = host; ip = ip })
    ]

abbrev pub has_host : Text → List BrokerAddressMapping → Bool
has_host host = any (λ m. m.host == host)

-- The first loop of `normalizeBrokerAddressMappings`; the mappings kept so far are the hosts seen.
unfoldable pub collect_mappings :
    Net
    → List BrokerAddressMapping
    → List BrokerAddressMapping
    → Normalized (List BrokerAddressMapping)
unfolding normalize_mapping
collect_mappings net kept [] = ok kept
collect_mappings net kept (m ∷ mappings) = continue (normalize_mapping net m) (λ item.
    let rest = collect_mappings net (kept ++ item ∷ []) mappings in
    if has_host item.host kept then err (mapping_host_repeated item.host) else rest)

-- Its second loop: the hosts of the NameServer need a mapping too.
unfoldable pub check_endpoints :
    Net → List BrokerAddressMapping → List Text → Option DefinitionError
check_endpoints net mappings [] = none
check_endpoints net mappings (endpoint ∷ endpoints) =
    let rest = check_endpoints net mappings endpoints in
    let host = name_server_host net endpoint in
    if not (host == []) && not (is_ip net host) && not (has_host (to_lower host) mappings)
    then some (name_server_host_unmapped host)
    else rest

unfoldable pub host_less : BrokerAddressMapping → BrokerAddressMapping → Bool
host_less a b = text_less a.host b.host

unfoldable pub checked :
    Option DefinitionError → List BrokerAddressMapping → Normalized (List BrokerAddressMapping)
checked (some e) mappings = err e
checked none mappings = ok (sort_stable host_less mappings)

unfoldable pub normalize_broker_address_mappings :
    Net → Text → List BrokerAddressMapping → Normalized (List BrokerAddressMapping)
unfolding collect_mappings check_endpoints checked
normalize_broker_address_mappings net name_server [] = ok []
normalize_broker_address_mappings net name_server (m ∷ mappings) =
    continue (collect_mappings net [] (m ∷ mappings))
      (λ kept. checked (check_endpoints net kept (split_on b';' name_server)) kept)

unfoldable pub normalize_managed_cluster_definition :
    Net → ClusterDefinition → Normalized ClusterDefinition
unfolding matches_cluster_id
normalize_managed_cluster_definition net d =
    let id = trim_space d.id in
    let label = trim_space d.label in
    let name_server = trim_space d.name_server in
    if not (matches_cluster_id id)
    then err id_malformed
    else if name_server == []
    then err name_server_required
    else if contains_any name_server (b'\r' ∷ b'\n' ∷ b'\t' ∷ [])
    then err name_server_multiline
    else continue (normalize_broker_address_mappings net name_server d.broker_address_mappings)
        (λ mappings. ok (record {
          id = id;
          label = if label == [] then id else label;
          name_server = name_server;
          broker_address_mappings = mappings;
        }))

abbrev pub has_id : Text → List ClusterDefinition → Bool
has_id id = any (λ d. d.id == id)

-- The loop of `normalizeManagedClusterDefinitions`; those kept so far are the ids seen.
unfoldable pub collect_definitions :
    Net → List ClusterDefinition → List ClusterDefinition → Normalized (List ClusterDefinition)
collect_definitions net kept [] = ok kept
collect_definitions net kept (d ∷ definitions) =
    continue (normalize_managed_cluster_definition net d) (λ item.
      let rest = collect_definitions net (kept ++ item ∷ []) definitions in
      if has_id item.id kept then err (id_repeated item.id) else rest)

unfoldable pub id_less : ClusterDefinition → ClusterDefinition → Bool
id_less a b = text_less a.id b.id

unfoldable pub normalize_managed_cluster_definitions :
    Net → List ClusterDefinition → Normalized (List ClusterDefinition)
unfolding collect_definitions
normalize_managed_cluster_definitions net definitions =
    continue (collect_definitions net [] definitions) (λ kept. ok (sort_stable id_less kept))

-- The loop of `mergeClusterDefinitions`; `none` is its panic on an id of both lists.
add_persisted : List ClusterDefinition → List ClusterDefinition → Option (List ClusterDefinition)
add_persisted merged [] = some merged
add_persisted merged (d ∷ persisted) =
    let rest = add_persisted (merged ++ d ∷ []) persisted in
    if has_id d.id merged then none else rest

pub merge_cluster_definitions :
    List ClusterDefinition → List ClusterDefinition → Option (List ClusterDefinition)
unfolding add_persisted
merge_cluster_definitions base persisted = elim (add_persisted base persisted) [
  | none ↦ none
  | some merged ↦ some (sort_stable id_less merged)
]
