-- ===== src/Registry/App/Restart.antt =====
-- A server that starts again from the registry file has the definitions that it had.
use go_rocketmq_dashboard.Base.{
  ◌≤◌, ◌<◌, true, false, not, ◌&&◌, none, some, List, [], ◌∷◌, ◌++◌, ◌==◌, ==_refl, text_eq, arith,
  ◌≡◌, ◌≢◌, refl, sym, ap, ◌⊎◌, inl, inr, Bool-cases, All, count-append, append_assoc, append-nil,
}
use mathlib.Core.Option.{some-ne-none}
use go_rocketmq_dashboard.Base.Dict
use go_rocketmq_dashboard.Base.Sort.{sort_stable_of_IsSorted}
use go_rocketmq_dashboard.Base.Text.{Text, trim_space}
use go_rocketmq_dashboard.Registry.First.{count_key}
use go_rocketmq_dashboard.Registry.Definition.{
  ClusterDefinition, Normalized, ok, err, Net, has_id, id_less, collect_definitions,
  normalize_managed_cluster_definitions,
}
use go_rocketmq_dashboard.Registry.App.{
  damaged, holds, App, SaveOutcome, saved, directory_fails, write_fails, MutationError,
  already_exists, not_found, immutable, invalid, save_failed, refuse, save_cluster_definitions,
  is_some, find_definition, Mutation, after_save, register_cluster, registered, update_normalized,
  update_cluster, updated, delete_cluster, deleted, load_cluster_definitions, Request, registers,
  updates, deletes, perform,
}
use go_rocketmq_dashboard.Registry.App.Invariant.{
  id_of, IsNormal, IsConsistent, BringsNormal, perform-IsConsistent,
}

count_of_has_id :
    (id : Text) (l : List ClusterDefinition) → has_id id l ≡ true → 0 < count_key id_of id l
count_of_has_id id [] h = cc
count_of_has_id id (d ∷ l) h = ground (arith, count_of_has_id id l)

module _ (net : Net) where
  collect_definitions_passes :
      (kept ds : List ClusterDefinition)
      → All (IsNormal net) ds
      → ((id : Text) → count_key id_of id (kept ++ ds) ≤ 1)
      → collect_definitions net kept ds ≡ ok (kept ++ ds)
  unfolding collect_definitions
  collect_definitions_passes kept [] _ h = ap ok (sym (append-nil kept))
  collect_definitions_passes kept (d ∷ ds) (n, ns) h = elim (Bool-cases (has_id d.id kept)) [
    | inl twice ↦ absurd (
        ground (
          arith,
          h d.id,
          count-append (λ x. x.id == d.id) kept (d ∷ ds),
          count_of_has_id d.id kept twice,
          ==_refl d.id,
        ))
    | inr once ↦
        rw (n, once, ← append_assoc kept (d ∷ []) ds)
          (collect_definitions_passes (kept ++ d ∷ []) ds ns (λ id. rw append_assoc (h id)))
  ]

  -- What the file of a consistent registry holds is loaded as it stands.
  load-persisted :
      (a : App)
      → IsConsistent net a
      → (trim_space a.cluster_registry_path == []) ≡ false
      → load_cluster_definitions net a.cluster_registry_path (holds a.persisted_clusters)
        ≡ some a.persisted_clusters
  unfolding load_cluster_definitions normalize_managed_cluster_definitions
  load-persisted a c path = rw (
    path,
    collect_definitions_passes [] a.persisted_clusters c.persisted_normal c.persisted_counts,
    sort_stable_of_IsSorted id_less a.persisted_clusters c.persisted_sorted,
  )

  -- A request that has succeeded was saved: the file holds the new list.
  abbrev Saved : Mutation → Type 0
  Saved m =
      m.1 ≡ none
      → (m.0.file ≡ holds m.0.persisted_clusters)
        × ((trim_space m.0.cluster_registry_path == []) ≡ false)

  -- The running registry is as it was; the file is as it was or, where a write has failed, damaged.
  abbrev pub LeavesRunning : App → Mutation → Type 0
  LeavesRunning a m =
      (m.0.clusters ≡ a.clusters)
      × (m.0.cluster_order ≡ a.cluster_order)
      × (m.0.persisted_clusters ≡ a.persisted_clusters)
      × ((m.0.file ≡ a.file) ⊎ ((m.0.file ≡ damaged) × (m.1 ≡ some save_failed)))

  -- Both hold of a refusal, and of a save however it ends.
  abbrev Ends : App → Mutation → Type 0
  Ends a m = Saved m × (m.1 ≢ none → LeavesRunning a m)

  refuse-Ends : (a : App) (e : MutationError) → Ends a (refuse a e)
  refuse-Ends a e = (λ h. absurd (some-ne-none e h), λ _. (refl, refl, refl, inl refl))

  after_save-Ends :
      (outcome : SaveOutcome) (a done : App)
      → done.cluster_registry_path ≡ a.cluster_registry_path
      → Ends a (
          after_save a done (
            save_cluster_definitions outcome a.cluster_registry_path a.file
              done.persisted_clusters))
  unfolding after_save save_cluster_definitions
  after_save-Ends outcome a done e = elim (Bool-cases (trim_space a.cluster_registry_path == [])) [
    | inl no_path ↦ rw no_path (λ h. absurd (some-ne-none _ h), λ _. (refl, refl, refl, inl refl))
    | inr path ↦ rw path (by_outcome outcome path)
  ]
    where
      by_outcome :
          (o : SaveOutcome)
          → (trim_space a.cluster_registry_path == []) ≡ false
          → Ends a (
              after_save a done (elim o [
                | saved ↦ (holds done.persisted_clusters, true)
                | directory_fails ↦ (a.file, false)
                | write_fails ↦ (damaged, false)
              ]))
      by_outcome saved path = (λ _. (refl, rw e path), λ h. absurd (h refl))
      by_outcome directory_fails path =
          (λ h. absurd (some-ne-none _ h), λ _. (refl, refl, refl, inl refl))
      by_outcome write_fails path =
          (λ h. absurd (some-ne-none _ h), λ _. (refl, refl, refl, inr (refl, refl)))

  register_cluster-Ends :
      (outcome : SaveOutcome) (d : ClusterDefinition) (a : App)
      → Ends a (register_cluster outcome d a)
  unfolding register_cluster
  register_cluster-Ends outcome d a = elim (Bool-cases (is_some (Dict.lookup d.id a.clusters))) [
    | inl taken ↦ rw taken (refuse-Ends a (already_exists d.id))
    | inr free ↦ rw free (after_save-Ends outcome a (registered d a) (unfold registered in refl))
  ]

  update_normalized-Ends :
      (outcome : SaveOutcome) (previous : Text) (d : ClusterDefinition) (a : App)
      (r : Normalized (List ClusterDefinition))
      → Ends a (update_normalized outcome previous d a r)
  unfolding update_normalized updated
  update_normalized-Ends outcome previous d a (err e) = refuse-Ends a (invalid e)
  update_normalized-Ends outcome previous d a (ok next) =
      after_save-Ends outcome a (updated previous d next a) refl

  update_cluster-Ends :
      (outcome : SaveOutcome) (previous : Text) (d : ClusterDefinition) (a : App)
      → Ends a (update_cluster net outcome previous d a)
  unfolding update_cluster
  update_cluster-Ends outcome previous d a =
      elim (Bool-cases (is_some (Dict.lookup previous a.clusters))) [
        | inr idle ↦ rw idle (refuse-Ends a (not_found previous))
        | inl runs_now ↦
            elim (Bool-cases (is_some (find_definition previous a.persisted_clusters))) [
              | inr fixed ↦ rw (runs_now, fixed) (refuse-Ends a immutable)
              | inl managed ↦
                  elim (Bool-cases
                    (not (previous == d.id) && is_some (Dict.lookup d.id a.clusters))) [
                      | inl taken ↦
                          rw (runs_now, managed, taken) (refuse-Ends a (already_exists d.id))
                      | inr free ↦
                          rw (runs_now, managed, free)
                            (update_normalized-Ends outcome previous d a _)
                    ]
            ]
      ]

  delete_cluster-Ends :
      (outcome : SaveOutcome) (id : Text) (a : App) → Ends a (delete_cluster outcome id a)
  unfolding delete_cluster
  delete_cluster-Ends outcome id a = elim (Bool-cases (is_some (Dict.lookup id a.clusters))) [
    | inr idle ↦ rw idle (refuse-Ends a (not_found id))
    | inl runs_now ↦ elim (Bool-cases (is_some (find_definition id a.persisted_clusters))) [
      | inr fixed ↦ rw (runs_now, fixed) (refuse-Ends a immutable)
      | inl managed ↦
          rw (runs_now, managed) (after_save-Ends outcome a (deleted id a) (unfold deleted in refl))
    ]
  ]

  perform-Ends : (outcome : SaveOutcome) (q : Request) (a : App) → Ends a (perform net outcome q a)
  unfolding perform
  perform-Ends outcome (registers d) a = register_cluster-Ends outcome d a
  perform-Ends outcome (updates previous d) a = update_cluster-Ends outcome previous d a
  perform-Ends outcome (deletes id) a = delete_cluster-Ends outcome id a

  -- A request that fails, for whatever reason, changes neither the runtimes, nor their order, nor the
  -- list of definitions; it leaves the file alone too, unless the write itself has failed.
  pub perform-LeavesRunning :
      (outcome : SaveOutcome) (q : Request) (a : App)
      → (perform net outcome q a).1 ≢ none
      → LeavesRunning a (perform net outcome q a)
  perform-LeavesRunning outcome q a = (perform-Ends outcome q a).1

  -- After a request that has succeeded on a consistent registry, with a definition in normal form
  -- where it brings one, a server that starts from the file loads exactly the definitions that this
  -- one has.
  pub load-perform :
      (outcome : SaveOutcome) (q : Request) (a : App)
      → BringsNormal net q
      → IsConsistent net a
      → (perform net outcome q a).1 ≡ none
      → load_cluster_definitions net
          (perform net outcome q a).0.cluster_registry_path
          (perform net outcome q a).0.file
        ≡ some (perform net outcome q a).0.persisted_clusters
  load-perform outcome q a n c h =
      let (file, path) = (perform-Ends outcome q a).0 h in
      rw file
        (load-persisted (perform net outcome q a).0 (perform-IsConsistent net outcome q a n c) path)
