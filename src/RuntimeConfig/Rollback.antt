-- ===== src/RuntimeConfig/Rollback.antt =====
-- What a rollback takes back, and what one change leaves alone.
use go_rocketmq_dashboard.Base.{
  ◌≡◌, ◌∙◌, refl, false, Bool-cases, inl, inr, ◌==◌, ==→≡, text_eq, List, [], ◌∷◌, ◌++◌, Option,
  none, some, All, contains, arith,
}
use mathlib.Core.Path.{subst}
use go_rocketmq_dashboard.Base.Text.{Text}
use go_rocketmq_dashboard.RuntimeConfig.Nodes.{Reply, write_runtime_config_value}
use go_rocketmq_dashboard.RuntimeConfig.Apply.{
  RuntimePendingChange, ApplyCause, rollback_errors, rollback_runtime_config_changes, apply_change,
  after_write, ChangeOutcome, kept, written, not_written, not_verified, verified,
}
use go_rocketmq_dashboard.RuntimeConfig.Laws.{CommandLaws}

pub data OutcomeCases (o : ChangeOutcome) : Type 0 where
  is_kept : o ≡ kept → OutcomeCases o
  is_written : o ≡ written → OutcomeCases o
  is_not_written : (cause : ApplyCause) → o ≡ not_written cause → OutcomeCases o
  is_not_verified : (cause : ApplyCause) → o ≡ not_verified cause → OutcomeCases o

pub outcome_cases : (o : ChangeOutcome) → OutcomeCases o
outcome_cases kept = is_kept refl
outcome_cases written = is_written refl
outcome_cases (not_written cause) = is_not_written cause refl
outcome_cases (not_verified cause) = is_not_verified cause refl

abbrev pub change_targets : List RuntimePendingChange → List Text
change_targets [] = []
change_targets (c ∷ cs) = c.target ∷ change_targets cs

append_nil_parts {ℓ} : {A : Type ℓ} (xs ys : List A) → xs ++ ys ≡ [] → (xs ≡ []) × (ys ≡ [])
append_nil_parts [] ys e = (refl, e)
append_nil_parts (x ∷ xs) ys e = cc

no_error :
    (c : RuntimePendingChange) (written : Option Text)
    → rollback_errors c written ≡ []
    → written ≡ none
unfolding rollback_errors
no_error c none e = refl
no_error c (some message) e = cc

-- The old value of a change is the one that the node had, and the node accepts it.
abbrev pub IsRestorable : (Text → Text → Type 0) → (Text → Text) → RuntimePendingChange → Type 0
IsRestorable Accepts before c = (c.previous ≡ before c.target) × Accepts c.target c.previous

module _ {W : Type 0} (run_command : List Text → W → W × Reply) (scope key name_server : Text)
    (view : W → Text → Text) (Accepts : Text → Text → Type 0)
    (laws : CommandLaws run_command scope key name_server view Accepts) where
  -- Nothing was changed but the targets of `applied`.
  abbrev pub Elsewhere : (Text → Text) → List RuntimePendingChange → W → Type 0
  Elsewhere before applied w =
      (asked : Text) → contains (change_targets applied) asked ≡ false → view w asked ≡ before asked

  -- A node is as before after the rollback if it was so already, or if it is a target.
  pub rollback_lem :
      (before : Text → Text) (applied : List RuntimePendingChange) (w : W) (asked : Text)
      → All (IsRestorable Accepts before) applied
      → (rollback_runtime_config_changes run_command scope key name_server applied w).1 ≡ []
      → (contains (change_targets applied) asked ≡ false → view w asked ≡ before asked)
      → view (rollback_runtime_config_changes run_command scope key name_server applied w).0 asked
        ≡ before asked
  unfolding rollback_runtime_config_changes
  rollback_lem before [] w asked _ e outside = outside refl
  rollback_lem before (c ∷ cs) w asked ((old, takes), restorable) e outside =
      let later = rollback_runtime_config_changes run_command scope key name_server cs w in
      let clean = append_nil_parts later.1 _ e in
      elim (Bool-cases (c.target == asked)) [
        | inl same ↦
            let here = ==→≡ c.target asked same in
            subst
              (λ t.
                view
                  (write_runtime_config_value run_command scope c.target key c.previous name_server
                    later.0).0
                  t
                ≡ before t)
              here
              (laws.write_accepted c.target c.previous later.0 (no_error c _ clean.1) takes ∙ old)
        | inr differs ↦
            laws.write_others c.target c.previous asked later.0 differs
            ∙ rollback_lem before cs w asked restorable clean.0 (λ h. outside (rw differs h))
      ]

  -- At another node, one change changes nothing.
  pub apply_change_others :
      (c : RuntimePendingChange) (w : W) (asked : Text)
      → (c.target == asked) ≡ false
      → view (apply_change run_command scope key name_server c w).0 asked ≡ view w asked
  unfolding apply_change
  apply_change_others c w asked differs =
      let write = write_runtime_config_value run_command scope c.target key c.value name_server w in
      ground (
        arith,
        laws.write_others c.target c.value asked w differs,
        laws.read_keeps c.target asked write.0,
      )

  pub apply_change_kept :
      (c : RuntimePendingChange) (w : W)
      → (apply_change run_command scope key name_server c w).1 ≡ kept
      → (apply_change run_command scope key name_server c w).0 ≡ w
  unfolding apply_change after_write verified
  apply_change_kept c w e = ground arith
