-- ===== src/RuntimeConfig/Nodes.antt =====
-- The commands that read and write one node. The provider is a parameter: a command changes the
-- world `W` and has an output or fails with a message.
use go_rocketmq_dashboard.Base.{
  not, ◌&&◌, if◌then◌else◌, ◌==◌, text_eq, List, [], ◌∷◌, ◌++◌, Option, none, some,
}
use go_rocketmq_dashboard.Base.Text.{Text, text, trim_space}
use go_rocketmq_dashboard.Parser.{
  ConfigEntry, ConfigSection, NameServerConfigSnapshot, parse_config_sections,
  parse_name_server_configs,
}
use go_rocketmq_dashboard.RuntimeConfig.Values.{equal_fold}

pub data Reply : Type 0 where
  output : Text → Reply
  failed : Text → Reply

pub data ReadError : Type 0 where
  command_failed : Text → ReadError
  output_unparsed : ReadError

pub data ReadResult : Type 0 where
  unread : ReadError → ReadResult
  not_found : ReadResult
  found : Text → ReadResult

unfoldable pub runtime_config_entry_value : List ConfigEntry → Text → Option Text
unfolding equal_fold trim_space
runtime_config_entry_value [] key = none
runtime_config_entry_value (entry ∷ entries) key =
    let later = runtime_config_entry_value entries key in
    if equal_fold (trim_space entry.key) key then some (trim_space entry.value) else later

unfoldable pub value_in_sections : List ConfigSection → Text → ReadResult
unfolding runtime_config_entry_value
value_in_sections [] key = not_found
value_in_sections (section ∷ sections) key = elim (runtime_config_entry_value section.entries key) [
  | some value ↦ found value
  | none ↦ value_in_sections sections key
]

-- The sections of another NameServer are passed over.
unfoldable pub value_in_configs : List NameServerConfigSnapshot → Text → Text → ReadResult
unfolding runtime_config_entry_value equal_fold trim_space
value_in_configs [] target key = not_found
value_in_configs (config ∷ configs) target key =
    let later = value_in_configs configs target key in
    if not (trim_space config.name_server == [])
      && not (equal_fold (trim_space config.name_server) target)
    then later
    else elim (runtime_config_entry_value config.entries key) [
      | some value ↦ found value
      | none ↦ later
    ]

unfoldable pub broker_value : Text → Reply → ReadResult
unfolding parse_config_sections value_in_sections
broker_value key (failed message) = unread (command_failed message)
broker_value key (output out) = elim (parse_config_sections out) [
  | none ↦ unread output_unparsed
  | some sections ↦ value_in_sections sections key
]

unfoldable pub name_server_value : Text → Text → Reply → ReadResult
unfolding parse_name_server_configs value_in_configs
name_server_value target key (failed message) = unread (command_failed message)
name_server_value target key (output out) = elim (parse_name_server_configs out) [
  | none ↦ unread output_unparsed
  | some configs ↦ value_in_configs configs target key
]

unfoldable pub reply_error : Reply → Option Text
reply_error (output _) = none
reply_error (failed message) = some message

module _ {W : Type 0} (run_command : List Text → W → W × Reply) where
  unfoldable pub read_runtime_config_value : Text → Text → Text → W → W × ReadResult
  unfolding broker_value name_server_value
  read_runtime_config_value scope target key w =
      if scope == text "broker"
      then (let reply = run_command (text "getBrokerConfig" ∷ text "-b" ∷ target ∷ []) w in
          (reply.0, broker_value key reply.1))
      else (let reply = run_command (text "getNamesrvConfig" ∷ text "-n" ∷ target ∷ []) w in
          (reply.0, name_server_value target key reply.1))

  unfoldable pub write_arguments : Text → Text → Text → Text → Text → List Text
  unfolding trim_space
  write_arguments scope target key value name_server =
      if scope == text "broker"
      then (let arguments =
            text "updateBrokerConfig"
            ∷ text "-b"
            ∷ target
            ∷ text "-k"
            ∷ key
            ∷ text "-v"
            ∷ value
            ∷ [] in
          if trim_space name_server == []
          then arguments
          else arguments ++ text "-n" ∷ name_server ∷ [])
      else text "updateNamesrvConfig"
        ∷ text "-n"
        ∷ target
        ∷ text "-k"
        ∷ key
        ∷ text "-v"
        ∷ value
        ∷ []

  -- `none` is a write with no error.
  unfoldable pub write_runtime_config_value : Text → Text → Text → Text → Text → W → W × Option Text
  unfolding write_arguments reply_error
  write_runtime_config_value scope target key value name_server w =
      let reply = run_command (write_arguments scope target key value name_server) w in
      (reply.0, reply_error reply.1)
