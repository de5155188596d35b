-- ===== src/Tests/Registry.antt =====
-- The cluster registry at concrete inputs.
use go_rocketmq_dashboard.Base.{
  ◌∷◌, ◌≡◌, ◌≢◌, refl, none, some, [], text_eq, nat_eq, arith, ◌==◌, if◌then◌else◌,
}
use go_rocketmq_dashboard.Base.Dict
use go_rocketmq_dashboard.Base.Text.{
  text, trim_space, trim_left, trim_right, is_space, cons_trimmed, contains_any,
}
use go_rocketmq_dashboard.Registry.Definition.{
  ClusterDefinition, Net, normalize_managed_cluster_definition, matches_cluster_id,
  normalize_broker_address_mappings,
}
use go_rocketmq_dashboard.Registry.Definition.{
  BrokerAddressMapping, ok, normalize_mapping, collect_mappings, check_endpoints, checked,
  matches_broker_host, is_ip, name_server_host, trim_brackets,
}
use go_rocketmq_dashboard.Registry.Definition.Mappings.{
  IsSound, normalize_broker_address_mappings-IsSound,
}
use go_rocketmq_dashboard.Base.Sort.{sort_stable}
use go_rocketmq_dashboard.Base.Text.{split_on, to_lower}
use go_rocketmq_dashboard.Registry.Startup.{
  normalize_cluster_definitions, normalize_name_server_options, definitions_or_generated,
  collect_startup, normalize_startup_definition, IsStartList,
  normalize_cluster_definitions-IsStartList,
}
use go_rocketmq_dashboard.Registry.App.{
  App, absent, saved, write_fails, registers, perform, load_cluster_definitions,
  save_cluster_definitions, after_save, register_cluster,
}
use go_rocketmq_dashboard.Registry.App.Invariant.{IsNormal, IsConsistent, perform-IsConsistent}
use go_rocketmq_dashboard.Registry.App.Restart.{LeavesRunning, perform-LeavesRunning, load-perform}

-- A package `net` that knows one address and no ports.
abbrev net : Net
net = record {
  canonical_ip = λ s. if s == text "10.0.0.1" then some s else none;
  split_host_port = λ _. none;
}

abbrev main : ClusterDefinition
main = record {
  id = text "m1";
  label = text "Main";
  name_server = text "ns:1";
  broker_address_mappings = [];
}

main-IsNormal : IsNormal net main
unfolding normalize_managed_cluster_definition matches_cluster_id normalize_broker_address_mappings
    trim_space trim_left trim_right is_space cons_trimmed text_eq nat_eq contains_any
main-IsNormal = refl

abbrev empty_app : App
empty_app = record {
  clusters = [];
  cluster_order = [];
  persisted_clusters = [];
  cluster_registry_path = text "clusters.json";
  file = absent;
}

empty_app-IsConsistent : IsConsistent net empty_app
unfolding Dict.lookup
empty_app-IsConsistent = record {
  order_counts = λ id. refl;
  order_sorted = tt;
  persisted_counts = λ id. omega arith;
  persisted_sorted = tt;
  persisted_run = tt;
  persisted_normal = tt;
}

perform-IsConsistent_example : IsConsistent net (perform net saved (registers main) empty_app).0
perform-IsConsistent_example =
    perform-IsConsistent net saved (registers main) empty_app main-IsNormal empty_app-IsConsistent

write_failed : (perform net write_fails (registers main) empty_app).1 ≢ none
unfolding perform register_cluster Dict.lookup save_cluster_definitions text_eq trim_space
    trim_right trim_left is_space nat_eq after_save
write_failed = λ e. cc

perform-LeavesRunning_example :
    LeavesRunning net empty_app (perform net write_fails (registers main) empty_app)
perform-LeavesRunning_example =
    perform-LeavesRunning net write_fails (registers main) empty_app write_failed

main_registered : (perform net saved (registers main) empty_app).1 ≡ none
unfolding perform register_cluster Dict.lookup save_cluster_definitions text_eq trim_space
    trim_right trim_left is_space nat_eq
main_registered = refl

load-perform_example :
    load_cluster_definitions net
      (perform net saved (registers main) empty_app).0.cluster_registry_path
      (perform net saved (registers main) empty_app).0.file
    ≡ some (perform net saved (registers main) empty_app).0.persisted_clusters
load-perform_example =
    load-perform net saved (registers main) empty_app main-IsNormal empty_app-IsConsistent
      main_registered

abbrev broker : BrokerAddressMapping
broker = record { host = text "b"; ip = text "10.0.0.1" }

broker_accepted :
    normalize_broker_address_mappings net
      (text "B:1")
      (record { host = text " B"; ip = text "10.0.0.1" } ∷ [])
    ≡ ok (broker ∷ [])
unfolding normalize_broker_address_mappings normalize_mapping collect_mappings check_endpoints
    checked matches_broker_host is_ip name_server_host trim_brackets sort_stable split_on to_lower
    trim_space trim_left trim_right is_space cons_trimmed text_eq nat_eq
broker_accepted = refl

normalize_broker_address_mappings-IsSound_example : IsSound net (text "B:1") (broker ∷ [])
normalize_broker_address_mappings-IsSound_example =
    normalize_broker_address_mappings-IsSound net (text "B:1")
      (record { host = text " B"; ip = text "10.0.0.1" } ∷ []) (broker ∷ []) broker_accepted

start_accepted : normalize_cluster_definitions net (main ∷ []) [] [] ≡ some (main ∷ [])
unfolding normalize_cluster_definitions normalize_name_server_options definitions_or_generated
    collect_startup normalize_startup_definition normalize_broker_address_mappings sort_stable
    trim_space trim_left trim_right is_space cons_trimmed text_eq nat_eq
start_accepted = refl

normalize_cluster_definitions-IsStartList_example : IsStartList (main ∷ [])
normalize_cluster_definitions-IsStartList_example =
    normalize_cluster_definitions-IsStartList net (main ∷ []) (main ∷ []) [] [] start_accepted
