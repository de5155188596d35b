-- ===== src/RuntimeConfig/Targets.antt =====
-- The nodes that a request is for: those of the feature report that have the key.
use go_rocketmq_dashboard.Base.{
  Bool, not, ◌&&◌, ◌||◌, if◌then◌else◌, ◌==◌, text_eq, List, [], ◌∷◌, contains, any,
}
use go_rocketmq_dashboard.Base.Sort.{sort_stable}
use go_rocketmq_dashboard.Base.Text.{Text, text, text_less, trim_space}
use go_rocketmq_dashboard.Parser.{ConfigEntry}
use go_rocketmq_dashboard.RuntimeConfig.Values.{equal_fold}

-- A Broker's address or a NameServer, with its entries.
pub record NodeConfig : Type 0 where
  pub address : Text
  pub entries : List ConfigEntry

pub record ClusterFeatureReport : Type 0 where
  pub broker_configs : List NodeConfig
  pub name_server_configs : List NodeConfig

unfoldable pub config_entry_exists : List ConfigEntry → Text → Bool
unfolding equal_fold trim_space
config_entry_exists entries key = any (λ entry. equal_fold (trim_space entry.key) key) entries

-- The loop over the nodes of a scope.
unfoldable pub matching_targets : List NodeConfig → Text → Text → List Text
unfolding config_entry_exists equal_fold trim_space
matching_targets [] requested key = []
matching_targets (n ∷ ns) requested key =
    let rest = matching_targets ns requested key in
    if not (requested == text "*") && not (equal_fold (trim_space n.address) requested)
    then rest
    else if config_entry_exists n.entries key
    then trim_space n.address ∷ rest
    else rest

-- The loop that trims and skips, on the values seen so far.
unfoldable pub unique_targets : List Text → List Text → List Text
unfolding trim_space
unique_targets seen [] = []
unique_targets seen (v ∷ vs) =
    let value = trim_space v in
    let skipped = unique_targets seen vs in
    let kept = unique_targets (value ∷ seen) vs in
    if value == [] || contains seen value then skipped else value ∷ kept

unfoldable pub unique_sorted_runtime_targets : List Text → List Text
unfolding unique_targets sort_stable text_less
unique_sorted_runtime_targets values = sort_stable text_less (unique_targets [] values)

unfoldable pub report_targets : ClusterFeatureReport → Text → Text → Text → List Text
unfolding matching_targets unique_sorted_runtime_targets
report_targets report scope requested key = unique_sorted_runtime_targets (
    if scope == text "broker"
    then matching_targets report.broker_configs requested key
    else matching_targets report.name_server_configs requested key)
