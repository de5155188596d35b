-- ===== src/Tests/RuntimeConfig.antt =====
-- The changes of runtime_config.go on two nodes, one of which answers a write with an error.
use go_rocketmq_dashboard.Base.{
  ◌≡◌, ◌≢◌, ◌∙◌, refl, sym, ap, true, false, if◌then◌else◌, ◌==◌, ==_refl, text_eq, nat_eq, List,
  [], ◌∷◌, ◌++◌, Option, none, some, arith, Bool-cases, inl, inr,
}
use go_rocketmq_dashboard.Base.Dict
use go_rocketmq_dashboard.Base.Dict.{Dict}
use go_rocketmq_dashboard.Base.Text.{
  Text, text, trim_space, trim_left, trim_right, is_space, to_lower, contains_any, byte_length,
}
use mathlib.Core.Path.{subst}
use go_rocketmq_dashboard.Parser.{ConfigEntry}
use go_rocketmq_dashboard.RuntimeConfig.Targets.{NodeConfig, report_targets}
use go_rocketmq_dashboard.RuntimeConfig.Nodes.{
  Reply, output, failed, ReadResult, unread, not_found, found, broker_value,
  read_runtime_config_value, write_runtime_config_value, write_arguments, reply_error,
}
use go_rocketmq_dashboard.RuntimeConfig.Values.{normalize_runtime_config_value, matches_key_pattern}
use go_rocketmq_dashboard.RuntimeConfig.Apply.{
  Applying, apply_changes, apply_change, after_write, fail_with, rollback_runtime_config_changes,
}
use go_rocketmq_dashboard.RuntimeConfig.Request.{
  RuntimeConfigChangeRequest, FeatureReply, report, Provider, RequestOutcome, ran, refused,
  apply_runtime_config_change, invalid_request, runtime_config_targets, targets_of_reply,
  run_targeted, run_prepared, prepare_changes, prepare_change, pending_change, add_ready,
}
use go_rocketmq_dashboard.RuntimeConfig.Laws.{CommandLaws}
use go_rocketmq_dashboard.RuntimeConfig.Restores.{
  FeaturesKeep, claims_restored, IsTakenBack, apply_runtime_config_change-restores,
}
use go_rocketmq_dashboard.RuntimeConfig.Succeeds.{
  reported_value, apply_runtime_config_change-reports,
}

-- The values that the nodes were given. A node that was given none flushes asynchronously.
abbrev Nodes : Type 0
Nodes = Dict Text Text

abbrev disk_key : Text
disk_key = text "flushDiskType"

current : Nodes → Text → Text
current w target = elim (Dict.lookup target w) [ none ↦ text "ASYNC_FLUSH" | some v ↦ v ]

abbrev node_output : Text → Text
node_output v = text "flushDiskType=" ++ v

-- Node `b:1` takes a write, and then answers with an error.
node_write : Text → Text → Nodes → Nodes × Reply
node_write target value w =
    if target == text "b:1"
    then (Dict.insert target value w, failed (text "timeout"))
    else (Dict.insert target value w, output [])

abbrev run_command : List Text → Nodes → Nodes × Reply
run_command (command ∷ flag ∷ target ∷ []) w = (w, output (node_output (current w target)))
run_command (command ∷ flag ∷ target ∷ k ∷ key ∷ v ∷ value ∷ rest) w = node_write target value w
run_command _ w = (w, failed (text "usage"))

abbrev value_of : ReadResult → Text
value_of (found v) = v
value_of not_found = []
value_of (unread e) = []

-- What a read of the node finds.
abbrev node_value : Nodes → Text → Text
node_value w target = value_of (broker_value disk_key (output (node_output (current w target))))

abbrev Accepts : Text → Text → Type 0
Accepts target v = broker_value disk_key (output (node_output v)) ≡ found v

module _ (target value : Text) (w : Nodes) where
  current_others :
      (asked : Text)
      → (target == asked) ≡ false
      → current (node_write target value w).0 asked ≡ current w asked
  unfolding current node_write
  current_others asked differs = ground (arith, Dict.lookup-insert target asked value w)

  node_write_free :
      (target == text "b:1") ≡ false
      → node_write target value w ≡ (Dict.insert target value w, output [])
  unfolding node_write
  node_write_free free = rw (free, node_write) refl

  node_write_refused :
      (target == text "b:1") ≡ true
      → node_write target value w ≡ (Dict.insert target value w, failed (text "timeout"))
  unfolding node_write
  node_write_refused refuse = rw (refuse, node_write) refl

  current_insert : current (Dict.insert target value w) target ≡ value
  unfolding current
  current_insert =
      let found_it : Dict.lookup target (Dict.insert target value w) ≡ some value =
        Dict.lookup-insert target target value w ∙ rw (==_refl target) refl in
      rw (found_it, current) refl

  refusal_error : reply_error (failed (text "timeout")) ≢ none
  unfolding reply_error
  refusal_error e = cc

  current_accepted :
      reply_error (node_write target value w).1 ≡ none
      → current (node_write target value w).0 target ≡ value
  current_accepted ok = elim (Bool-cases (target == text "b:1")) [
    | inl refuse ↦
        absurd (refusal_error (sym (ap (λ p. reply_error p.1) (node_write_refused refuse)) ∙ ok))
    | inr free ↦ ap (λ p. current p.0 target) (node_write_free free) ∙ current_insert
  ]

  written :
      write_runtime_config_value run_command (text "broker") target disk_key value [] w
      ≡ ((node_write target value w).0, reply_error (node_write target value w).1)
  unfolding write_runtime_config_value write_arguments text_eq trim_space trim_left trim_right
  written = refl

abbrev value_at : Text → Text
value_at v = value_of (broker_value disk_key (output (node_output v)))

read_again :
    (target : Text) (w : Nodes)
    → read_runtime_config_value run_command (text "broker") target disk_key w
      ≡ (w, broker_value disk_key (output (node_output (current w target))))
unfolding read_runtime_config_value text_eq
read_again target w = refl

laws : CommandLaws run_command (text "broker") disk_key [] node_value Accepts
laws = record {
  read_keeps = λ target asked w. ap (λ p. node_value p.0 asked) (read_again target w);
  read_sees =
      λ target value w e. sym (ap value_of e) ∙ ap (λ p. value_of p.1) (read_again target w);
  write_others = λ target value asked w differs.
      ap (λ p. node_value p.0 asked) (written target value w)
      ∙ ap value_at (current_others target value w asked differs);
  write_accepted = λ target value w ok takes.
      ap (λ p. node_value p.0 target) (written target value w)
      ∙ ap value_at
          (current_accepted target value w (sym (ap (λ p. p.1) (written target value w)) ∙ ok))
      ∙ ap value_of takes;
}

abbrev entry : ConfigEntry
entry = record { key = disk_key; value = text "ASYNC_FLUSH" }

request_laws :
    CommandLaws run_command
      (to_lower (trim_space (text "Broker")))
      (trim_space (text " flushDiskType"))
      []
      node_value
      Accepts
unfolding to_lower trim_space trim_left trim_right nat_eq is_space
request_laws = laws

-- The report has a Broker that takes writes and, where asked for, the one that does not.
abbrev provider : List NodeConfig → Provider Nodes
provider nodes = record {
  commands = some run_command;
  features = some (λ w. (w, report (record { broker_configs = nodes; name_server_configs = [] })));
}

abbrev node_a : NodeConfig
node_a = record { address = text "a:1"; entries = entry ∷ [] }

abbrev node_b : NodeConfig
node_b = record { address = text "b:1"; entries = entry ∷ [] }

abbrev request : RuntimeConfigChangeRequest
request = record {
  scope = text "Broker";
  target = text "*";
  key = text " flushDiskType";
  value = text "sync_flush";
}

abbrev no_float : Text → Option Text
no_float s = none

provider-FeaturesKeep : (nodes : List NodeConfig) → FeaturesKeep node_value (provider nodes)
provider-FeaturesKeep nodes ask w asked e =
    ap
      (λ (o : Option (Nodes → Nodes × FeatureReply)). elim o [
        | none ↦ node_value w asked
        | some g ↦ node_value (g w).0 asked
      ])
      (sym e)

default_read :
    broker_value disk_key (output (node_output (text "ASYNC_FLUSH"))) ≡ found (text "ASYNC_FLUSH")
unfolding broker_value text_eq nat_eq trim_right trim_left is_space
default_read = refl

defaults_accepted : (target : Text) → Accepts target (node_value [] target)
unfolding current Dict.lookup
defaults_accepted target =
    let e : node_value [] target ≡ text "ASYNC_FLUSH" = ap value_of default_read in
    subst (Accepts target) (sym e) default_read

-- The request changes node `a:1`, has an error from `b:1`, and takes the first change back.
failing_claims_restored :
    claims_restored
      (apply_runtime_config_change no_float (provider (node_a ∷ node_b ∷ [])) [] request [])
    ≡ true
unfolding apply_runtime_config_change invalid_request matches_key_pattern trim_space trim_left
    trim_right to_lower contains_any byte_length runtime_config_targets targets_of_reply
    report_targets run_targeted run_prepared prepare_changes prepare_change pending_change add_ready
    normalize_runtime_config_value read_runtime_config_value write_runtime_config_value
    write_arguments reply_error apply_changes apply_change after_write fail_with
    rollback_runtime_config_changes node_write current text_eq nat_eq is_space Dict.lookup
    Dict.insert
failing_claims_restored = refl

apply_runtime_config_change-restores_example :
    IsTakenBack run_command
      (to_lower (trim_space (text "Broker")))
      (trim_space (text " flushDiskType"))
      []
      node_value
      (node_value [])
      (apply_runtime_config_change no_float (provider (node_a ∷ node_b ∷ [])) [] request [])
apply_runtime_config_change-restores_example =
    apply_runtime_config_change-restores no_float (provider (node_a ∷ node_b ∷ [])) [] request []
      run_command node_value Accepts refl request_laws
      (provider-FeaturesKeep (node_a ∷ node_b ∷ [])) defaults_accepted failing_claims_restored

abbrev applied_of : RequestOutcome Nodes → Applying Nodes
applied_of (ran a) = a
applied_of (refused refusal w) = record {
  world = w;
  payload = record { results = []; restart_required = false; rolled_back = false };
  failure = none;
  refreshes = false;
}

-- The message says that the old values are restored, and node `b:1` has the new one.
left_on_b :
    node_value
      (applied_of (
        apply_runtime_config_change no_float (provider (node_a ∷ node_b ∷ [])) [] request [])).world
      (text "b:1")
    ≡ text "SYNC_FLUSH"
unfolding apply_runtime_config_change invalid_request matches_key_pattern trim_space trim_left
    trim_right to_lower contains_any byte_length runtime_config_targets targets_of_reply
    report_targets run_targeted run_prepared prepare_changes prepare_change pending_change add_ready
    normalize_runtime_config_value read_runtime_config_value write_runtime_config_value
    write_arguments reply_error apply_changes apply_change after_write fail_with
    rollback_runtime_config_changes node_write current text_eq nat_eq Dict.lookup is_space
    Dict.insert
left_on_b = refl

-- The run on the one node that takes the write.
abbrev run_on_a : Applying Nodes
run_on_a = applied_of (apply_runtime_config_change no_float (provider (node_a ∷ [])) [] request [])

runs_on_a :
    apply_runtime_config_change no_float (provider (node_a ∷ [])) [] request [] ≡ ran run_on_a
unfolding apply_runtime_config_change invalid_request matches_key_pattern trim_space trim_left
    trim_right to_lower contains_any byte_length runtime_config_targets targets_of_reply
    report_targets run_targeted run_prepared prepare_changes prepare_change pending_change add_ready
    normalize_runtime_config_value read_runtime_config_value write_runtime_config_value
    write_arguments reply_error apply_changes apply_change after_write fail_with
    rollback_runtime_config_changes node_write current text_eq nat_eq is_space Dict.lookup
runs_on_a = refl

no_failure_on_a : run_on_a.failure ≡ none
unfolding apply_runtime_config_change invalid_request matches_key_pattern trim_space trim_left
    trim_right to_lower contains_any byte_length runtime_config_targets targets_of_reply
    report_targets run_targeted run_prepared prepare_changes prepare_change pending_change add_ready
    normalize_runtime_config_value read_runtime_config_value write_runtime_config_value
    write_arguments reply_error apply_changes apply_change after_write fail_with
    rollback_runtime_config_changes node_write current text_eq nat_eq is_space Dict.lookup
    Dict.insert
no_failure_on_a = refl

apply_runtime_config_change-reports_example :
    node_value run_on_a.world (text "a:1")
    ≡ reported_value (node_value [] (text "a:1")) (text "a:1") run_on_a.payload.results
apply_runtime_config_change-reports_example =
    apply_runtime_config_change-reports no_float (provider (node_a ∷ [])) [] request [] run_command
      node_value Accepts run_on_a (text "a:1") refl request_laws
      (provider-FeaturesKeep (node_a ∷ [])) defaults_accepted runs_on_a no_failure_on_a

-- The value that the request leaves at the node.
value_on_a : node_value run_on_a.world (text "a:1") ≡ text "SYNC_FLUSH"
unfolding apply_runtime_config_change invalid_request matches_key_pattern trim_space trim_left
    trim_right to_lower contains_any byte_length runtime_config_targets targets_of_reply
    report_targets run_targeted run_prepared prepare_changes prepare_change pending_change add_ready
    normalize_runtime_config_value read_runtime_config_value write_runtime_config_value
    write_arguments reply_error apply_changes apply_change after_write fail_with
    rollback_runtime_config_changes node_write current text_eq nat_eq Dict.lookup is_space
    Dict.insert
value_on_a = refl
