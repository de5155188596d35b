-- ===== src/RuntimeConfig/Failed.antt =====
-- The runs of the loop of `applyRuntimeConfigChange` that fail.
use go_rocketmq_dashboard.Base.{
  ◌≡◌, ◌≢◌, ◌⊎◌, ◌∙◌, refl, sym, ap, Bool, true, false, Bool-cases, inl, inr, ◌==◌, ==→≡, text_eq,
  List, [], ◌∷◌, ◌++◌, Option, none, some, All, All-append, contains, ltb, length, arith,
}
use mathlib.Core.Path.{subst}
use go_rocketmq_dashboard.Base.Text.{Text}
use go_rocketmq_dashboard.RuntimeConfig.Nodes.{
  Reply, ReadResult, unread, not_found, found, read_runtime_config_value,
  write_runtime_config_value,
}
use go_rocketmq_dashboard.RuntimeConfig.Apply.{
  RuntimePendingChange, RuntimeConfigChangeResult, ApplyCause, write_failed, restored,
  RollbackErrors, runtime_config_apply_error, rollback_runtime_config_changes, apply_change,
  apply_changes, fail_with, change_result, after_write, kept, not_written, verified,
}
use go_rocketmq_dashboard.RuntimeConfig.Laws.{CommandLaws}
use go_rocketmq_dashboard.RuntimeConfig.Rollback.{
  change_targets, is_kept, is_written, is_not_written, is_not_verified, outcome_cases, IsRestorable,
  Elsewhere, rollback_lem, apply_change_others, apply_change_kept,
}

restored_clean :
    (cause why : ApplyCause) (errors : RollbackErrors)
    → some (runtime_config_apply_error cause errors) ≡ some (restored why)
    → errors ≡ []
unfolding runtime_config_apply_error
restored_clean cause why [] e = refl
restored_clean cause why (x ∷ errors) e = cc

restored_cause :
    (cause why : ApplyCause) (errors : RollbackErrors)
    → some (runtime_config_apply_error cause errors) ≡ some (restored why)
    → cause ≡ why
unfolding runtime_config_apply_error
restored_cause cause why [] e = cc
restored_cause cause why (x ∷ errors) e = cc

verified_no_write :
    (c : RuntimePendingChange) (read : ReadResult) (cause : ApplyCause)
    → verified c read ≢ not_written cause
unfolding verified
verified_no_write c (unread e) cause h = cc
verified_no_write c not_found cause h = cc
verified_no_write c (found actual) cause h = ground arith

targets-append :
    (applied : List RuntimePendingChange) (c : RuntimePendingChange) (asked : Text)
    → contains (change_targets (applied ++ c ∷ [])) asked ≡ false
    → (contains (change_targets applied) asked ≡ false) × ((c.target == asked) ≡ false)
targets-append [] c asked h = (refl, ground arith)
targets-append (d ∷ applied) c asked h = ground (arith, targets-append applied c asked)

module _ {W : Type 0} (run_command : List Text → W → W × Reply) (scope key name_server : Text)
    (view : W → Text → Text) where
  -- The write of a value to the node ends with the message that the error reports.
  abbrev pub WriteFails : Text → ApplyCause → Type 0
  WriteFails node why =
      (value : Text) × (message : Text) × (w : W) × (why ≡ write_failed message)
      × ((write_runtime_config_value run_command scope node key value name_server w).1
          ≡ some message)

  -- Every node is as before, or the error is that of a failed write, and every node is as before but
  -- for the one of that write.
  abbrev pub IsRestored : (Text → Text) → ApplyCause → W → Type 0
  IsRestored before why w =
      ((asked : Text) → view w asked ≡ before asked)
      ⊎ ((node : Text) × WriteFails node why
          × ((asked : Text) → (node ≡ asked) ⊎ (view w asked ≡ before asked)))

module _ {W : Type 0} (run_command : List Text → W → W × Reply) (scope key name_server : Text)
    (view : W → Text → Text) (Accepts : Text → Text → Type 0)
    (laws : CommandLaws run_command scope key name_server view Accepts) where
  -- The state of the loop: the changes that are applied can be undone, and nothing else is changed.
  abbrev pub Undoable : (Text → Text) → List RuntimePendingChange → W → Type 0
  Undoable before applied w =
      All (IsRestorable Accepts before) applied
      × Elsewhere run_command scope key name_server view Accepts laws before applied w

  fail_with_lem :
      (before : Text → Text) (results : List RuntimeConfigChangeResult)
      (applied : List RuntimePendingChange) (rolled_back : Bool) (cause : ApplyCause) (w : W)
      (why : ApplyCause) (asked : Text)
      → All (IsRestorable Accepts before) applied
      → (contains (change_targets applied) asked ≡ false → view w asked ≡ before asked)
      → (fail_with run_command scope key name_server results applied rolled_back cause w).failure
        ≡ some (restored why)
      → view
          (fail_with run_command scope key name_server results applied rolled_back cause w).world
          asked
        ≡ before asked
  unfolding fail_with
  fail_with_lem before results applied rolled_back cause w why asked r outside e =
      rollback_lem run_command scope key name_server view Accepts laws before applied w asked r
        (restored_clean cause why
          (rollback_runtime_config_changes run_command scope key name_server applied w).1 e)
        outside

  fail_with_cause :
      (results : List RuntimeConfigChangeResult) (applied : List RuntimePendingChange)
      (rolled_back : Bool) (cause : ApplyCause) (w : W) (why : ApplyCause)
      → (fail_with run_command scope key name_server results applied rolled_back cause w).failure
        ≡ some (restored why)
      → cause ≡ why
  unfolding fail_with
  fail_with_cause results applied rolled_back cause w why e =
      restored_cause cause why
        (rollback_runtime_config_changes run_command scope key name_server applied w).1 e

  after_write_not_written :
      (c : RuntimePendingChange) (w : W) (error : Option Text) (cause : ApplyCause)
      → (after_write run_command scope key name_server c (w, error)).1 ≡ not_written cause
      → (message : Text) × (cause ≡ write_failed message) × (error ≡ some message)
  unfolding after_write verified
  after_write_not_written c w (some message) cause e = (message, cc, refl)
  after_write_not_written c w none cause e =
      absurd
        (verified_no_write c (read_runtime_config_value run_command scope c.target key w).1 cause e)

  apply_change_not_written :
      (c : RuntimePendingChange) (w : W) (cause : ApplyCause)
      → (apply_change run_command scope key name_server c w).1 ≡ not_written cause
      → WriteFails run_command scope key name_server view c.target cause
  unfolding apply_change
  apply_change_not_written c w cause e =
      let write = write_runtime_config_value run_command scope c.target key c.value name_server w in
      elim (Bool-cases (c.previous == c.value)) [
        | inl equal ↦ ground arith
        | inr changes ↦
            let wrote : apply_change run_command scope key name_server c w
                ≡ after_write run_command scope key name_server c write =
              rw (changes, apply_change) refl in
            let refusal =
              after_write_not_written c write.0 write.1 cause (sym (ap (λ p. p.1) wrote) ∙ e) in
            (c.value, refusal.0, w, refusal.1, refusal.2)
      ]

  -- The state stays undoable over one change.
  kept-Undoable :
      (before : Text → Text) (applied : List RuntimePendingChange) (c : RuntimePendingChange)
      (w : W)
      → Undoable before applied w
      → (apply_change run_command scope key name_server c w).1 ≡ kept
      → Undoable before applied (apply_change run_command scope key name_server c w).0
  kept-Undoable before applied c w u e =
      rw (apply_change_kept run_command scope key name_server view Accepts laws c w e) u

  tried-Undoable :
      (before : Text → Text) (applied : List RuntimePendingChange) (c : RuntimePendingChange)
      (w : W)
      → IsRestorable Accepts before c
      → Undoable before applied w
      → Undoable before (applied ++ c ∷ []) (apply_change run_command scope key name_server c w).0
  tried-Undoable before applied c w one (r, outside) = (
    All-append (IsRestorable Accepts before) applied (c ∷ []) r (one, tt),
    λ asked h.
        let parts = targets-append applied c asked h in
        apply_change_others run_command scope key name_server view Accepts laws c w asked parts.1
        ∙ outside asked parts.0,
  )

  -- The two ends of the loop that fail.
  not_written-IsRestored :
      (before : Text → Text) (results : List RuntimeConfigChangeResult)
      (applied : List RuntimePendingChange) (c : RuntimePendingChange) (rolled_back : Bool) (w : W)
      (cause why : ApplyCause)
      → Undoable before applied w
      → (apply_change run_command scope key name_server c w).1 ≡ not_written cause
      → (fail_with run_command scope key name_server results applied rolled_back cause
          (apply_change run_command scope key name_server c w).0).failure
        ≡ some (restored why)
      → IsRestored run_command scope key name_server view before why
          (fail_with run_command scope key name_server results applied rolled_back cause
            (apply_change run_command scope key name_server c w).0).world
  not_written-IsRestored before results applied c rolled_back w cause why (r, outside) o e =
      let step = apply_change run_command scope key name_server c w in
      let same = fail_with_cause results applied rolled_back cause step.0 why e in
      inr (
        c.target,
        subst (WriteFails run_command scope key name_server view c.target) same
            (apply_change_not_written c w cause o),
        λ asked. elim (Bool-cases (c.target == asked)) [
          | inl here ↦ inl (==→≡ c.target asked here)
          | inr differs ↦ inr (
              fail_with_lem before results applied rolled_back cause step.0 why asked r
                (λ h.
                  apply_change_others run_command scope key name_server view Accepts laws c w asked
                    differs
                  ∙ outside asked h)
                e)
        ],
      )

  not_verified-IsRestored :
      (before : Text → Text) (results : List RuntimeConfigChangeResult)
      (applied : List RuntimePendingChange) (cause : ApplyCause) (w : W) (why : ApplyCause)
      → Undoable before applied w
      → (fail_with run_command scope key name_server results applied true cause w).failure
        ≡ some (restored why)
      → IsRestored run_command scope key name_server view before why
          (fail_with run_command scope key name_server results applied true cause w).world
  not_verified-IsRestored before results applied cause w why (r, outside) e =
      inl (λ asked. fail_with_lem before results applied true cause w why asked r (outside asked) e)

  pub apply_changes_lem :
      (before : Text → Text) (pending : List RuntimePendingChange)
      (results : List RuntimeConfigChangeResult) (applied : List RuntimePendingChange) (w : W)
      (why : ApplyCause)
      → All (IsRestorable Accepts before) pending
      → Undoable before applied w
      → (apply_changes run_command scope key name_server pending results applied w).failure
        ≡ some (restored why)
      → IsRestored run_command scope key name_server view before why
          (apply_changes run_command scope key name_server pending results applied w).world
  unfolding apply_changes
  apply_changes_lem before [] results applied w why _ u e = cc
  apply_changes_lem before (c ∷ pending) results applied w why (one, rest) u e =
      let step = apply_change run_command scope key name_server c w in
      elim (outcome_cases step.1) [
        | is_kept o ↦
            rw (o, apply_changes)
              (apply_changes_lem before pending
                (results ++ change_result run_command scope key name_server c false ∷ []) applied
                step.0 why rest (kept-Undoable before applied c w u o) (rw (o, apply_changes) at e))
        | is_written o ↦
            rw (o, apply_changes)
              (apply_changes_lem before pending
                (results ++ change_result run_command scope key name_server c true ∷ [])
                (applied ++ c ∷ []) step.0 why rest (tried-Undoable before applied c w one u)
                (rw (o, apply_changes) at e))
        | is_not_written cause o ↦
            rw (o, apply_changes)
              (not_written-IsRestored before results applied c (ltb 0 (length applied)) w cause why
                u o (rw (o, apply_changes) at e))
        | is_not_verified cause o ↦
            rw (o, apply_changes)
              (not_verified-IsRestored before results (applied ++ c ∷ []) cause step.0 why
                (tried-Undoable before applied c w one u) (rw (o, apply_changes) at e))
      ]
