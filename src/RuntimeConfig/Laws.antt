-- ===== src/RuntimeConfig/Laws.antt =====
-- What the configuration commands do to the nodes, as far as the requests rely on it.
use go_rocketmq_dashboard.Base.{◌≡◌, false, ◌==◌, text_eq, List, none}
use go_rocketmq_dashboard.Base.Text.{Text}
use go_rocketmq_dashboard.RuntimeConfig.Nodes.{
  Reply, found, read_runtime_config_value, write_runtime_config_value,
}

-- `view w t` is the value of the key at node `t`. A read changes no value and finds the value that
-- is there, if it finds one. A write changes its own node at most; after a write without an error the
-- node has the new value, if it accepts that value.
pub record CommandLaws {W : Type 0} (run_command : List Text → W → W × Reply)
    (scope key name_server : Text) (view : W → Text → Text) (Accepts : Text → Text → Type 0)
    : Type 0 where
  pub read_keeps :
      (target asked : Text) (w : W)
      → view (read_runtime_config_value run_command scope target key w).0 asked ≡ view w asked
  pub read_sees :
      (target value : Text) (w : W)
      → (read_runtime_config_value run_command scope target key w).1 ≡ found value
      → value ≡ view w target
  pub write_others :
      (target value asked : Text) (w : W)
      → (target == asked) ≡ false
      → view (write_runtime_config_value run_command scope target key value name_server w).0 asked
        ≡ view w asked
  pub write_accepted :
      (target value : Text) (w : W)
      → (write_runtime_config_value run_command scope target key value name_server w).1 ≡ none
      → Accepts target value
      → view (write_runtime_config_value run_command scope target key value name_server w).0 target
        ≡ value
