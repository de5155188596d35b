-- ===== src/Registry/App.antt =====
-- The registry's part of `App`: the runtimes by id, the order of the ids, and the definitions that
-- the registry file holds. Every operation runs under `clusterMu`, so each is one step. A runtime is
-- what was built for its definition; its provider and snapshots are made afresh with it.
pub mod Invariant
pub mod Restart
use go_rocketmq_dashboard.Base.{
  ℕ, zero, suc, Bool, true, false, not, ◌&&◌, Option, none, some, List, [], ◌∷◌, ◌++◌,
  if◌then◌else◌, ◌==◌, text_eq,
}
use go_rocketmq_dashboard.Base.Dict
use go_rocketmq_dashboard.Base.Dict.{Dict}
use go_rocketmq_dashboard.Base.Sort.{sort_stable}
use go_rocketmq_dashboard.Base.Text.{Text, text_less, trim_space}
use go_rocketmq_dashboard.Registry.First.{replace_first, remove_first}
use go_rocketmq_dashboard.Registry.Definition.{
  ClusterDefinition, DefinitionError, Normalized, ok, err, Net, id_less,
  normalize_managed_cluster_definitions,
}

pub record ClusterRuntime : Type 0 where
  pub definition : ClusterDefinition

-- The registry file. A write that fails has already truncated it.
pub data RegistryFile : Type 0 where
  absent damaged : RegistryFile
  holds : List ClusterDefinition → RegistryFile

pub record App : Type 0 where
  pub clusters : Dict Text ClusterRuntime
  pub cluster_order : List Text
  pub persisted_clusters : List ClusterDefinition
  pub cluster_registry_path : Text
  pub file : RegistryFile

-- How far the file operations of one call get.
pub data SaveOutcome : Type 0 where
  saved directory_fails write_fails : SaveOutcome

pub data MutationError : Type 0 where
  already_exists not_found : Text → MutationError
  immutable save_failed : MutationError
  invalid : DefinitionError → MutationError

-- `saveClusterDefinitions`: the file afterwards, and whether the call returns nil.
unfoldable pub save_cluster_definitions :
    SaveOutcome → Text → RegistryFile → List ClusterDefinition → RegistryFile × Bool
save_cluster_definitions outcome path file definitions =
    if trim_space path == [] then (file, false) else elim outcome [
      | saved ↦ (holds definitions, true)
      | directory_fails ↦ (file, false)
      | write_fails ↦ (damaged, false)
    ]

-- The definition of the list with this id, if there is one.
pub find_definition : Text → List ClusterDefinition → Option ClusterDefinition
find_definition id [] = none
find_definition id (d ∷ definitions) = if d.id == id then some d else find_definition id definitions

abbrev pub is_some {ℓ} : {A : Type ℓ} → Option A → Bool
is_some none = false
is_some (some _) = true

-- What an operation leaves: the state, and its error if it has one.
abbrev pub Mutation : Type 0
Mutation = App × Option MutationError

abbrev pub refuse : App → MutationError → Mutation
refuse a e = (a, some e)

-- The state after a save: `done` where it has succeeded, and only the file touched where not.
unfoldable pub after_save : App → App → RegistryFile × Bool → Mutation
after_save a done (file, true) = (record done { file = file }, none)
after_save a done (file, false) = (record a { file = file }, some save_failed)

-- The state with a new cluster.
unfoldable pub registered : ClusterDefinition → App → App
registered d a = record a {
  persisted_clusters = sort_stable id_less (a.persisted_clusters ++ d ∷ []);
  clusters = Dict.insert d.id (record { definition = d }) a.clusters;
  cluster_order = sort_stable text_less (a.cluster_order ++ d.id ∷ []);
}

-- `registerCluster`
unfoldable pub register_cluster : SaveOutcome → ClusterDefinition → App → Mutation
unfolding after_save registered
register_cluster outcome d a =
    let next_persisted = (registered d a).persisted_clusters in
    if is_some (Dict.lookup d.id a.clusters)
    then refuse a (already_exists d.id)
    else after_save a (registered d a)
        (save_cluster_definitions outcome a.cluster_registry_path a.file next_persisted)

-- `clusterDefinitionForID`: the definition, and whether the registry file has it.
pub cluster_definition_for_id : Text → App → Option (ClusterDefinition × Bool)
cluster_definition_for_id id a = elim (Dict.lookup id a.clusters) [
  | none ↦ none
  | some runtime ↦ some (runtime.definition, is_some (find_definition id a.persisted_clusters))
]

-- The state with a cluster under its new definition, and with its new list of definitions.
pub updated : Text → ClusterDefinition → List ClusterDefinition → App → App
unfolding replace_first
updated previous d next_persisted a = record a {
  persisted_clusters = next_persisted;
  clusters = Dict.insert d.id (record { definition = d }) (Dict.erase previous a.clusters);
  cluster_order = sort_stable text_less (replace_first (λ i. i) previous d.id a.cluster_order);
}

update_normalized :
    SaveOutcome → Text → ClusterDefinition → App → Normalized (List ClusterDefinition) → Mutation
unfolding after_save updated
update_normalized outcome previous d a (err e) = refuse a (invalid e)
update_normalized outcome previous d a (ok next_persisted) =
    after_save a (updated previous d next_persisted a)
      (save_cluster_definitions outcome a.cluster_registry_path a.file next_persisted)

-- `updateCluster`
pub update_cluster : Net → SaveOutcome → Text → ClusterDefinition → App → Mutation
unfolding update_normalized replace_first
update_cluster net outcome previous d a =
    if not (is_some (Dict.lookup previous a.clusters))
    then refuse a (not_found previous)
    else if not (is_some (find_definition previous a.persisted_clusters))
    then refuse a immutable
    else if not (previous == d.id) && is_some (Dict.lookup d.id a.clusters)
    then refuse a (already_exists d.id)
    else update_normalized outcome previous d a (
        normalize_managed_cluster_definitions net
          (replace_first (λ x. x.id) previous d a.persisted_clusters))

-- The state without a cluster.
pub deleted : Text → App → App
unfolding remove_first
deleted id a = record a {
  persisted_clusters = remove_first (λ d. d.id) id a.persisted_clusters;
  clusters = Dict.erase id a.clusters;
  cluster_order = remove_first (λ i. i) id a.cluster_order;
}

-- `deleteCluster`
pub delete_cluster : SaveOutcome → Text → App → Mutation
unfolding after_save deleted
delete_cluster outcome id a =
    if not (is_some (Dict.lookup id a.clusters))
    then refuse a (not_found id)
    else if not (is_some (find_definition id a.persisted_clusters))
    then refuse a immutable
    else after_save a (deleted id a) (
        save_cluster_definitions outcome a.cluster_registry_path a.file
          (deleted id a).persisted_clusters)

-- `loadClusterDefinitions` at the start; `none` is one of its panics.
pub load_cluster_definitions : Net → Text → RegistryFile → Option (List ClusterDefinition)
load_cluster_definitions net path file = if trim_space path == [] then some [] else elim file [
  | absent ↦ some []
  | damaged ↦ none
  | holds definitions ↦ elim (normalize_managed_cluster_definitions net definitions) [
    | ok normalized ↦ some normalized
    | err _ ↦ none
  ]
]

pub data Request : Type 0 where
  registers : ClusterDefinition → Request
  updates : Text → ClusterDefinition → Request
  deletes : Text → Request

unfoldable pub perform : Net → SaveOutcome → Request → App → Mutation
perform net outcome (registers d) a = register_cluster outcome d a
perform net outcome (updates previous d) a = update_cluster net outcome previous d a
perform net outcome (deletes id) a = delete_cluster outcome id a
