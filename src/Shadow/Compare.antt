-- ===== src/Shadow/Compare.antt =====
-- The comparison of a target's output with the primary's, of shadow.go, after normalisation.
pub mod Files
pub mod Matched
use go_rocketmq_dashboard.Base.{
  ℕ, Bool, true, not, ◌&&◌, none, some, [], ◌∷◌, ◌==◌, nat_eq, text_eq, length,
}
use go_rocketmq_dashboard.Base.Dict.{Dict, lookup}
use go_rocketmq_dashboard.Base.Text.{Text}

pub record ShadowComparableOutput : Type 0 where
  pub stdout : Text
  pub stderr : Text
  pub artifacts : Dict Text Text
  pub error : Text

-- A duration is a number of nanoseconds, which a monotonic clock keeps from being negative.
pub record ShadowDiff : Type 0 where
  pub target : Text
  pub matched : Bool
  pub stdout_different : Bool
  pub stderr_different : Bool
  pub error_different : Bool
  pub artifacts_different : Bool
  pub duration : ℕ

-- `right[name]`: the empty text when the name is missing.
unfoldable pub content : Dict Text Text → Text → Text
content artifacts name = elim (lookup name artifacts) [ none ↦ [] | some value ↦ value ]

-- The loop of `equalShadowArtifacts`.
unfoldable pub same_contents : Dict Text Text → Dict Text Text → Bool
unfolding content
same_contents [] right = true
same_contents ((name, value) ∷ left) right =
    (content right name == value) && same_contents left right

unfoldable pub equal_shadow_artifacts : Dict Text Text → Dict Text Text → Bool
unfolding same_contents
equal_shadow_artifacts left right = (length left == length right) && same_contents left right

unfoldable pub compare_shadow_output : ShadowComparableOutput → ShadowComparableOutput → ShadowDiff
unfolding equal_shadow_artifacts
compare_shadow_output primary target =
    let stdout_different = not (primary.stdout == target.stdout) in
    let stderr_different = not (primary.stderr == target.stderr) in
    let error_different = not (primary.error == target.error) in
    let artifacts_different = not (equal_shadow_artifacts primary.artifacts target.artifacts) in
    record {
      target = [];
      matched =
          not stdout_different
          && not stderr_different
          && not error_different
          && not artifacts_different;
      stdout_different = stdout_different;
      stderr_different = stderr_different;
      error_different = error_different;
      artifacts_different = artifacts_different;
      duration = 0;
    }
