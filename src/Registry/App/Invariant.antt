-- ===== src/Registry/App/Invariant.antt =====
-- What the registry keeps true, whatever it is asked to do and however its saves end.
use go_rocketmq_dashboard.Base.{
  ◌≤◌, ◌<◌, Bool, true, false, not, ◌&&◌, some, List, [], ◌∷◌, ◌++◌, if◌then◌else◌, ◌==◌, ==_refl,
  ==→≡, text_eq, arith, ◌≡◌, refl, ◌∙◌, ◌⊎◌, inl, inr, Bool-cases, All, All-imp, All-append,
  count-append, append_assoc, append-nil,
}
use go_rocketmq_dashboard.Base.Dict
use go_rocketmq_dashboard.Base.Dict.{Dict, lookup-insert, lookup-erase}
use go_rocketmq_dashboard.Base.Sort.{
  IsWeakOrder, IsSorted, sort_stable, sort_stable-IsSorted, sort_stable-All, count-sort_stable,
}
use go_rocketmq_dashboard.Base.Text.{Text, text_less, text_less-IsWeakOrder}
use go_rocketmq_dashboard.Registry.First.{
  replace_first, count_key, count-replace_first, count-remove_first, All-replace_first,
  All-remove_first, remove_first-IsSorted,
}
use go_rocketmq_dashboard.Registry.Definition.{
  ClusterDefinition, Normalized, ok, err, Net, continue_ok, id_less,
  normalize_managed_cluster_definition, collect_definitions, normalize_managed_cluster_definitions,
}
use go_rocketmq_dashboard.Registry.App.{
  ClusterRuntime, RegistryFile, App, SaveOutcome, find_definition, is_some, after_save, registered,
  register_cluster, updated, update_normalized, update_cluster, deleted, delete_cluster, Request,
  registers, updates, deletes, perform,
}

abbrev pub id_of : ClusterDefinition → Text
id_of d = d.id

abbrev pub itself : Text → Text
itself i = i

abbrev pub runs : ClusterDefinition → ClusterRuntime
runs d = record { definition = d }

id_less-IsWeakOrder : IsWeakOrder id_less
unfolding id_less
id_less-IsWeakOrder = record {
  asymm = λ a b h. text_less-IsWeakOrder.asymm a.id b.id h;
  trans = λ a b c h k. text_less-IsWeakOrder.trans a.id b.id c.id h k;
}

module _ (net : Net) where
  -- The definition is in the form that normalizing it gives.
  abbrev pub IsNormal : ClusterDefinition → Type 0
  IsNormal d = normalize_managed_cluster_definition net d ≡ ok d

  -- The order lists every cluster once, by name; a definition of the registry has its runtime, is in
  -- normal form, and has an id of its own.
  pub record IsConsistent (a : App) : Type 0 where
    pub order_counts :
        (id : Text)
        → count_key itself id a.cluster_order
          ≡ (if is_some (Dict.lookup id a.clusters) then 1 else 0)
    pub order_sorted : IsSorted text_less a.cluster_order
    pub persisted_counts : (id : Text) → count_key id_of id a.persisted_clusters ≤ 1
    pub persisted_sorted : IsSorted id_less a.persisted_clusters
    pub persisted_run : All (λ d. Dict.lookup d.id a.clusters ≡ some (runs d)) a.persisted_clusters
    pub persisted_normal : All IsNormal a.persisted_clusters

  -- A file operation alone does not matter.
  with_file : (a : App) (f : RegistryFile) → IsConsistent a → IsConsistent (record a { file = f })
  with_file a f c = record {
    order_counts = c.order_counts;
    order_sorted = c.order_sorted;
    persisted_counts = c.persisted_counts;
    persisted_sorted = c.persisted_sorted;
    persisted_run = c.persisted_run;
    persisted_normal = c.persisted_normal;
  }

  after_save-IsConsistent :
      (a done : App) (r : RegistryFile × Bool)
      → IsConsistent a
      → IsConsistent done
      → IsConsistent (after_save a done r).0
  unfolding after_save
  after_save-IsConsistent a done (f, true) c d = with_file done f d
  after_save-IsConsistent a done (f, false) c d = with_file a f c

  -- An id that does not run is no definition's id.
  count_of_idle :
      (clusters : Dict Text ClusterRuntime) (id : Text) (l : List ClusterDefinition)
      → is_some (Dict.lookup id clusters) ≡ false
      → All (λ d. Dict.lookup d.id clusters ≡ some (runs d)) l
      → count_key id_of id l ≡ 0
  count_of_idle clusters id [] h _ = refl
  count_of_idle clusters id (d ∷ l) h (r, rs) = ground (arith, count_of_idle clusters id l h rs)

  registered-IsConsistent :
      (d : ClusterDefinition) (a : App)
      → IsNormal d
      → is_some (Dict.lookup d.id a.clusters) ≡ false
      → IsConsistent a
      → IsConsistent (registered d a)
  unfolding registered
  registered-IsConsistent d a n free c = record {
    order_counts = λ id.
        count-sort_stable text_less _ (a.cluster_order ++ d.id ∷ [])
        ∙ ground (
          arith,
          count-append (λ i. i == id) a.cluster_order (d.id ∷ []),
          c.order_counts id,
          lookup-insert d.id id (runs d) a.clusters,
        );
    order_sorted = sort_stable-IsSorted text_less text_less-IsWeakOrder _;
    persisted_counts = λ id. ground (
      arith,
      count-sort_stable id_less (λ x. x.id == id) (a.persisted_clusters ++ d ∷ []),
      count-append (λ x. x.id == id) a.persisted_clusters (d ∷ []),
      c.persisted_counts id,
      count_of_idle a.clusters d.id a.persisted_clusters free c.persisted_run,
    );
    persisted_sorted = sort_stable-IsSorted id_less id_less-IsWeakOrder _;
    persisted_run = sort_stable-All id_less _ (a.persisted_clusters ++ d ∷ []) (
        All-append _ a.persisted_clusters (d ∷ [])
          (All-imp _ _ (λ x r. ground (arith, lookup-insert d.id x.id (runs d) a.clusters))
            a.persisted_clusters c.persisted_run)
          (ground (arith, lookup-insert d.id d.id (runs d) a.clusters, ==_refl d.id), tt));
    persisted_normal =
        sort_stable-All id_less IsNormal (a.persisted_clusters ++ d ∷ [])
          (All-append IsNormal a.persisted_clusters (d ∷ []) c.persisted_normal (n, tt));
  }

  register_cluster-IsConsistent :
      (outcome : SaveOutcome) (d : ClusterDefinition) (a : App)
      → IsNormal d
      → IsConsistent a
      → IsConsistent (register_cluster outcome d a).0
  unfolding register_cluster
  register_cluster-IsConsistent outcome d a n c =
      elim (Bool-cases (is_some (Dict.lookup d.id a.clusters))) [
        | inl taken ↦ rw taken c
        | inr free ↦
            rw free (
              after_save-IsConsistent a (registered d a) _ c (registered-IsConsistent d a n free c))
      ]

  count_of_found :
      (id : Text) (l : List ClusterDefinition)
      → is_some (find_definition id l) ≡ true
      → 0 < count_key id_of id l
  unfolding find_definition
  count_of_found id [] h = cc
  count_of_found id (d ∷ l) h = ground (arith, count_of_found id l)

  deleted-IsConsistent :
      (id : Text) (a : App)
      → is_some (Dict.lookup id a.clusters) ≡ true
      → is_some (find_definition id a.persisted_clusters) ≡ true
      → IsConsistent a
      → IsConsistent (deleted id a)
  unfolding deleted
  deleted-IsConsistent id a runs_now managed c =
      let in_order : 0 < count_key itself id a.cluster_order = ground (arith, c.order_counts id) in
      let in_list = count_of_found id a.persisted_clusters managed in
      record {
        order_counts = λ k. ground (
          arith,
          count-remove_first itself id k a.cluster_order in_order,
          c.order_counts k,
          lookup-erase id k a.clusters,
          c.order_counts id,
        );
        order_sorted = remove_first-IsSorted itself text_less id a.cluster_order c.order_sorted;
        persisted_counts = λ k. ground (
          arith,
          count-remove_first id_of id k a.persisted_clusters in_list,
          c.persisted_counts k,
        );
        persisted_sorted =
            remove_first-IsSorted id_of id_less id a.persisted_clusters c.persisted_sorted;
        persisted_run =
            All-remove_first id_of _ _ id
              (λ x other r. ground (arith, lookup-erase id x.id a.clusters)) a.persisted_clusters
              (c.persisted_counts id) c.persisted_run;
        persisted_normal =
            All-remove_first id_of _ _ id (λ x other n. n) a.persisted_clusters
              (c.persisted_counts id) c.persisted_normal;
      }

  delete_cluster-IsConsistent :
      (outcome : SaveOutcome) (id : Text) (a : App)
      → IsConsistent a
      → IsConsistent (delete_cluster outcome id a).0
  unfolding delete_cluster
  delete_cluster-IsConsistent outcome id a c =
      elim (Bool-cases (is_some (Dict.lookup id a.clusters))) [
        | inr idle ↦ rw idle c
        | inl runs_now ↦ elim (Bool-cases (is_some (find_definition id a.persisted_clusters))) [
          | inr fixed ↦ rw (runs_now, fixed) c
          | inl managed ↦
              rw (runs_now, managed)
                (after_save-IsConsistent a (deleted id a) _ c
                  (deleted-IsConsistent id a runs_now managed c))
        ]
      ]

  -- Definitions in normal form pass through the normalization of a list as they are.
  collect_definitions_of_normal :
      (kept ds out : List ClusterDefinition)
      → All IsNormal ds
      → collect_definitions net kept ds ≡ ok out
      → out ≡ kept ++ ds
  unfolding collect_definitions
  collect_definitions_of_normal kept [] out _ h = ground (arith, append-nil kept)
  collect_definitions_of_normal kept (d ∷ ds) out (n, ns) h =
      collect_definitions_of_normal (kept ++ d ∷ []) ds out ns (ground arith)
      ∙ append_assoc kept (d ∷ []) ds

  normalized_of_normal :
      (ds out : List ClusterDefinition)
      → All IsNormal ds
      → normalize_managed_cluster_definitions net ds ≡ ok out
      → out ≡ sort_stable id_less ds
  unfolding normalize_managed_cluster_definitions
  normalized_of_normal ds out n h =
      let (kept, e, f) =
        continue_ok (collect_definitions net [] ds) (λ kept. ok (sort_stable id_less kept)) h in
      let same = collect_definitions_of_normal [] ds kept n e in ground arith

  new_id_count :
      (previous : Text) (d : ClusterDefinition) (a : App)
      → (not (previous == d.id) && is_some (Dict.lookup d.id a.clusters)) ≡ false
      → IsConsistent a
      → (previous ≡ d.id) ⊎ (count_key id_of d.id a.persisted_clusters ≡ 0)
  new_id_count previous d a free c = elim (Bool-cases (previous == d.id)) [
    | inl same ↦ inl (==→≡ previous d.id same)
    | inr differ ↦
        inr (count_of_idle a.clusters d.id a.persisted_clusters (ground arith) c.persisted_run)
  ]

  updated-IsConsistent :
      (previous : Text) (d : ClusterDefinition) (a : App)
      → IsNormal d
      → is_some (Dict.lookup previous a.clusters) ≡ true
      → is_some (find_definition previous a.persisted_clusters) ≡ true
      → (not (previous == d.id) && is_some (Dict.lookup d.id a.clusters)) ≡ false
      → IsConsistent a
      → IsConsistent (
          updated previous d
            (sort_stable id_less (replace_first id_of previous d a.persisted_clusters))
            a)
  unfolding updated
  updated-IsConsistent previous d a n runs_now managed free c =
      let in_order : 0 < count_key itself previous a.cluster_order =
        ground (arith, c.order_counts previous) in
      let in_list = count_of_found previous a.persisted_clusters managed in
      let new_list = replace_first id_of previous d a.persisted_clusters in
      record {
        order_counts = λ k.
            count-sort_stable text_less _ (replace_first itself previous d.id a.cluster_order)
            ∙ ground (
              arith,
              count-replace_first itself previous k d.id a.cluster_order in_order,
              c.order_counts k,
              c.order_counts previous,
              lookup-insert d.id k (runs d) (Dict.erase previous a.clusters),
              lookup-erase previous k a.clusters,
            );
        order_sorted = sort_stable-IsSorted text_less text_less-IsWeakOrder _;
        persisted_counts = λ k. ground (
          arith,
          count-sort_stable id_less (λ x. x.id == k) new_list,
          count-replace_first id_of previous k d a.persisted_clusters in_list,
          c.persisted_counts k,
          new_id_count previous d a free c,
        );
        persisted_sorted = sort_stable-IsSorted id_less id_less-IsWeakOrder _;
        persisted_run = sort_stable-All id_less _ new_list (
            All-replace_first id_of _ _ previous
              (λ x other r. ground (
                arith,
                lookup-insert d.id x.id (runs d) (Dict.erase previous a.clusters),
                lookup-erase previous x.id a.clusters,
              ))
              d a.persisted_clusters (c.persisted_counts previous)
              (ground (
                arith,
                lookup-insert d.id d.id (runs d) (Dict.erase previous a.clusters),
                ==_refl d.id,
              ))
              c.persisted_run);
        persisted_normal = sort_stable-All id_less IsNormal new_list (
            All-replace_first id_of _ _ previous (λ x other r. r) d a.persisted_clusters
              (c.persisted_counts previous) n c.persisted_normal);
      }

  update_normalized-IsConsistent :
      (outcome : SaveOutcome) (previous : Text) (d : ClusterDefinition) (a : App)
      (r : Normalized (List ClusterDefinition))
      → ((next : List ClusterDefinition) → r ≡ ok next → IsConsistent (updated previous d next a))
      → IsConsistent a
      → IsConsistent (update_normalized outcome previous d a r).0
  unfolding update_normalized
  update_normalized-IsConsistent outcome previous d a (err e) h c = c
  update_normalized-IsConsistent outcome previous d a (ok next) h c =
      after_save-IsConsistent a (updated previous d next a) _ c (h next refl)

  update_cluster-IsConsistent :
      (outcome : SaveOutcome) (previous : Text) (d : ClusterDefinition) (a : App)
      → IsNormal d
      → IsConsistent a
      → IsConsistent (update_cluster net outcome previous d a).0
  unfolding update_cluster
  update_cluster-IsConsistent outcome previous d a n c =
      elim (Bool-cases (is_some (Dict.lookup previous a.clusters))) [
        | inr idle ↦ rw idle c
        | inl runs_now ↦
            elim (Bool-cases (is_some (find_definition previous a.persisted_clusters))) [
              | inr fixed ↦ rw (runs_now, fixed) c
              | inl managed ↦
                  elim (Bool-cases
                    (not (previous == d.id) && is_some (Dict.lookup d.id a.clusters))) [
                      | inl taken ↦ rw (runs_now, managed, taken) c
                      | inr free ↦
                          rw (runs_now, managed, free)
                            (update_normalized-IsConsistent outcome previous d a _
                              (next_consistent runs_now managed free) c)
                    ]
            ]
      ]
    where
      next_consistent :
          is_some (Dict.lookup previous a.clusters) ≡ true
          → is_some (find_definition previous a.persisted_clusters) ≡ true
          → (not (previous == d.id) && is_some (Dict.lookup d.id a.clusters)) ≡ false
          → (next : List ClusterDefinition)
          → normalize_managed_cluster_definitions net
              (replace_first id_of previous d a.persisted_clusters)
            ≡ ok next
          → IsConsistent (updated previous d next a)
      next_consistent runs_now managed free next e =
          rw
            (normalized_of_normal (replace_first id_of previous d a.persisted_clusters) next
              (All-replace_first id_of _ _ previous (λ x other r. r) d a.persisted_clusters
                (c.persisted_counts previous) n c.persisted_normal)
              e)
            (updated-IsConsistent previous d a n runs_now managed free c)

  -- What a request brings is in normal form: the handlers decode it so.
  abbrev pub BringsNormal : Request → Type 0
  BringsNormal (registers d) = IsNormal d
  BringsNormal (updates previous d) = IsNormal d
  BringsNormal (deletes id) = Unit {0}

  -- A request to a consistent registry leaves it consistent, whether it succeeds, is refused, or its
  -- save fails; a definition that it brings is to be in normal form.
  pub perform-IsConsistent :
      (outcome : SaveOutcome) (q : Request) (a : App)
      → BringsNormal q
      → IsConsistent a
      → IsConsistent (perform net outcome q a).0
  unfolding perform
  perform-IsConsistent outcome (registers d) a n c = register_cluster-IsConsistent outcome d a n c
  perform-IsConsistent outcome (updates previous d) a n c =
      update_cluster-IsConsistent outcome previous d a n c
  perform-IsConsistent outcome (deletes id) a _ c = delete_cluster-IsConsistent outcome id a c
