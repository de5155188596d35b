-- ===== src/Registry/Startup.antt =====
-- `normalizeClusterDefinitions` of cluster_runtime.go: the clusters of the start, from the
-- configuration or, where it names none, from the NameServers of server.go.
use go_rocketmq_dashboard.Base.{
  ℕ, suc, ◌+◌, ◌≤◌, ◌≡◌, ◌≢◌, refl, Bool, true, false, not, ◌&&◌, ◌||◌, Option, none, some, List,
  [], ◌∷◌, ◌++◌, if◌then◌else◌, ltb, ◌==◌, ==→≡, text_eq, contains, All, All-append, count,
  count-append, arith, inl, inr, Bool-cases,
}
use mathlib.Core.Path.{subst}
use go_rocketmq_dashboard.Base.Int.{pos}
use go_rocketmq_dashboard.Base.Itoa.{itoa}
use go_rocketmq_dashboard.Base.Sort.{
  IsWeakOrder, IsSorted, sort_stable, sort_stable-All, sort_stable-IsSorted, count-sort_stable,
}
use go_rocketmq_dashboard.Base.Text.{Text, text, trim_space, text_less-IsWeakOrder}
use go_rocketmq_dashboard.Registry.Definition.{
  ClusterDefinition, BrokerAddressMapping, Normalized, ok, err, Net, has_id, id_less,
  normalize_broker_address_mappings,
}

-- The loop of `normalizeNameServerOptions`; the values kept so far are also those seen.
unfoldable pub collect_name_servers : List Text → List Text → List Text
collect_name_servers kept [] = kept
collect_name_servers kept (value ∷ values) =
    let trimmed = trim_space value in
    collect_name_servers
      (if trimmed == [] || contains kept trimmed then kept else kept ++ trimmed ∷ []) values

unfoldable pub normalize_name_server_options : Text → List Text → List Text
unfolding collect_name_servers
normalize_name_server_options current options = collect_name_servers [] (current ∷ options)

-- The definition that is made up for the NameServer at a position.
generated : ℕ → Text → ClusterDefinition
generated index name_server = record {
  id = if ltb 0 index then text "cluster-" ++ itoa (pos (index + 1)) else text "default";
  label = if ltb 0 index then text "集群 " ++ itoa (pos (index + 1)) else text "默认集群";
  name_server = name_server;
  broker_address_mappings = [];
}

generated_from : ℕ → List Text → List ClusterDefinition
unfolding generated
generated_from index [] = []
generated_from index (name_server ∷ name_servers) =
    generated index name_server ∷ generated_from (suc index) name_servers

-- The definitions that are looked at, and whether they stand for the sample provider.
unfoldable pub definitions_or_generated :
    List ClusterDefinition → List Text → List ClusterDefinition × Bool
unfolding generated_from
definitions_or_generated [] [] = (
  record {
    id = text "default";
    label = text "默认集群";
    name_server = [];
    broker_address_mappings = [];
  }
      ∷ [],
  true,
)
definitions_or_generated [] (name_server ∷ name_servers) =
    (generated_from 0 (name_server ∷ name_servers), false)
definitions_or_generated (d ∷ definitions) name_servers = (d ∷ definitions, false)

unfoldable pub with_mappings :
    ClusterDefinition → Normalized (List BrokerAddressMapping) → Option ClusterDefinition
with_mappings d (err e) = none
with_mappings d (ok mappings) = some (record d { broker_address_mappings = mappings })

-- The body of the loop up to the test for a repeated id; `none` is a panic.
unfoldable pub normalize_startup_definition :
    Net → Bool → ClusterDefinition → Option ClusterDefinition
unfolding with_mappings
normalize_startup_definition net generated_sample d =
    let id = trim_space d.id in
    let label = trim_space d.label in
    let name_server = trim_space d.name_server in
    if id == [] || (not generated_sample && name_server == [])
    then none
    else with_mappings
        (record d { id = id; label = if label == [] then id else label; name_server = name_server })
        (normalize_broker_address_mappings net name_server d.broker_address_mappings)

unfoldable pub collect_startup :
    Net → Bool → List ClusterDefinition → List ClusterDefinition → Option (List ClusterDefinition)
unfolding normalize_startup_definition
collect_startup net generated_sample kept [] = some kept
collect_startup net generated_sample kept (d ∷ definitions) =
    elim (normalize_startup_definition net generated_sample d) [
      | none ↦ none
      | some item ↦
          let rest = collect_startup net generated_sample (kept ++ item ∷ []) definitions in
          if has_id item.id kept then none else rest
    ]

-- `none` is one of its panics.
unfoldable pub normalize_cluster_definitions :
    Net → List ClusterDefinition → Text → List Text → Option (List ClusterDefinition)
unfolding definitions_or_generated collect_startup
normalize_cluster_definitions net definitions fallback options =
    let (chosen, generated_sample) =
      definitions_or_generated definitions (normalize_name_server_options fallback options) in
    elim (collect_startup net generated_sample [] chosen) [
      | none ↦ none
      | some normalized ↦ some (sort_stable id_less normalized)
    ]

startup_less-IsWeakOrder : IsWeakOrder id_less
unfolding id_less
startup_less-IsWeakOrder = record {
  asymm = λ a b h. text_less-IsWeakOrder.asymm a.id b.id h;
  trans = λ a b c h k. text_less-IsWeakOrder.trans a.id b.id c.id h k;
}

abbrev pub IsLabelled : ClusterDefinition → Type 0
IsLabelled d = (d.id ≢ []) × (d.label ≢ [])

-- Clusters with an id and a label each, no id twice, in the order of the ids.
pub record IsStartList (definitions : List ClusterDefinition) : Type 0 where
  pub labelled : All IsLabelled definitions
  pub distinct : (id : Text) → count (λ d. d.id == id) definitions ≤ 1
  pub sorted : IsSorted id_less definitions

module _ (net : Net) where
  normalize_startup_definition-IsLabelled :
      (sample : Bool) (d item : ClusterDefinition)
      → normalize_startup_definition net sample d ≡ some item
      → IsLabelled item
  unfolding normalize_startup_definition with_mappings
  normalize_startup_definition-IsLabelled sample d item h = (ground arith, ground arith)

  count_of_new :
      (id : Text) (l : List ClusterDefinition) → has_id id l ≡ false → count (λ d. d.id == id) l ≡ 0
  count_of_new id [] h = refl
  count_of_new id (d ∷ l) h = ground (arith, count_of_new id l)

  add_distinct :
      (item : ClusterDefinition) (kept : List ClusterDefinition)
      → has_id item.id kept ≡ false
      → ((id : Text) → count (λ d. d.id == id) kept ≤ 1)
      → (id : Text) → count (λ d. d.id == id) (kept ++ item ∷ []) ≤ 1
  add_distinct item kept new c id = elim (Bool-cases (item.id == id)) [
    | inl same ↦ ground (
      arith,
      count-append (λ d. d.id == id) kept (item ∷ []),
      subst (λ x. count (λ d. d.id == x) kept ≡ 0) (==→≡ item.id id same)
          (count_of_new item.id kept new),
    )
    | inr other ↦ ground (arith, count-append (λ d. d.id == id) kept (item ∷ []), c id)
  ]

  step_ok :
      (sample : Bool) (kept ds out : List ClusterDefinition) (o : Option ClusterDefinition)
      → elim o [
        | none ↦ none
        | some item ↦
            let rest = collect_startup net sample (kept ++ item ∷ []) ds in
            if has_id item.id kept then none else rest
      ]
        ≡ some out
      → (item : ClusterDefinition) × (o ≡ some item)
        × (has_id item.id kept ≡ false)
        × (collect_startup net sample (kept ++ item ∷ []) ds ≡ some out)
  step_ok sample kept ds out none h = cc
  step_ok sample kept ds out (some item) h = (item, refl, ground arith, ground arith)

  collected :
      (sample : Bool) (kept ds out : List ClusterDefinition)
      → All IsLabelled kept
      → ((id : Text) → count (λ d. d.id == id) kept ≤ 1)
      → collect_startup net sample kept ds ≡ some out
      → All IsLabelled out × ((id : Text) → count (λ d. d.id == id) out ≤ 1)
  unfolding collect_startup
  collected sample kept [] out l c h = let same : kept ≡ out = ground arith in rw (← same) (l, c)
  collected sample kept (d ∷ ds) out l c h =
      let (item, first, new, later) =
        step_ok sample kept ds out (normalize_startup_definition net sample d) h in
      collected sample (kept ++ item ∷ []) ds out
        (All-append IsLabelled kept (item ∷ []) l
          (normalize_startup_definition-IsLabelled sample d item first, tt))
        (add_distinct item kept new c) later

  -- Whenever the start does not panic, its clusters have an id and a label each, no id stands twice,
  -- and they stand in the order of their ids.
  pub normalize_cluster_definitions-IsStartList :
      (definitions out : List ClusterDefinition) (fallback : Text) (options : List Text)
      → normalize_cluster_definitions net definitions fallback options ≡ some out
      → IsStartList out
  unfolding normalize_cluster_definitions
  normalize_cluster_definitions-IsStartList definitions out fallback options h =
      let (chosen, sample) =
        definitions_or_generated definitions (normalize_name_server_options fallback options) in
      sorted_ok (collect_startup net sample [] chosen)
        (λ kept e. collected sample [] chosen kept tt (λ id. omega arith) e) h
    where
      sorted_ok :
          (o : Option (List ClusterDefinition))
          → ((kept : List ClusterDefinition)
              → o ≡ some kept
              → All IsLabelled kept × ((id : Text) → count (λ d. d.id == id) kept ≤ 1))
          → ◌≡◌ {A = Option (List ClusterDefinition)}
              (elim o [ none ↦ none | some normalized ↦ some (sort_stable id_less normalized) ])
              (some out)
          → IsStartList out
      sorted_ok none k h = cc
      sorted_ok (some kept) k h =
          let (l, c) = k kept refl in
          let same : sort_stable id_less kept ≡ out = ground arith in
          rw (← same) (record {
            labelled = sort_stable-All id_less IsLabelled kept l;
            distinct = λ id. rw (count-sort_stable id_less (λ d. d.id == id) kept) (c id);
            sorted = sort_stable-IsSorted id_less startup_less-IsWeakOrder kept;
          })
