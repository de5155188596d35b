-- ===== src/RuntimeConfig/Applied.antt =====
-- A run of changes that ends without a failure leaves every node with its new value.
use go_rocketmq_dashboard.Base.{
  ◌≤◌, ◌≡◌, ◌≢◌, ◌∙◌, refl, sym, ap, Bool, true, false, ◌||◌, not, Bool-cases, inl, inr, ◌==◌, ==→≡,
  ==_refl, text_eq, List, [], ◌∷◌, ◌++◌, append-nil, append_assoc, map, Option, none, some, All,
  contains, count, ltb, length, arith,
}
use mathlib.Core.Path.{subst}
use go_rocketmq_dashboard.Base.Text.{Text}
use go_rocketmq_dashboard.RuntimeConfig.Nodes.{
  Reply, ReadResult, unread, not_found, found, read_runtime_config_value,
  write_runtime_config_value,
}
use go_rocketmq_dashboard.RuntimeConfig.Apply.{
  RuntimePendingChange, RuntimeConfigChangeResult, Applying, ApplyCause, apply_change,
  apply_changes, fail_with, change_result, after_write, kept, written, verified,
}
use go_rocketmq_dashboard.RuntimeConfig.Laws.{CommandLaws}
use go_rocketmq_dashboard.RuntimeConfig.Rollback.{
  change_targets, is_kept, is_written, is_not_written, is_not_verified, outcome_cases,
  apply_change_others, apply_change_kept,
}

-- No text stands in the list twice.
abbrev pub AtMostOnce : List Text → Type 0
AtMostOnce l = (t : Text) → count (λ x. x == t) l ≤ 1

count_zero : (l : List Text) (t : Text) → count (λ x. x == t) l ≡ 0 → contains l t ≡ false
count_zero [] t h = refl
count_zero (x ∷ l) t h = ground (arith, count_zero l t)

head_only : (x : Text) (l : List Text) → AtMostOnce (x ∷ l) → contains l x ≡ false
head_only x l once = let here = ==_refl x in let bound = once x in count_zero l x (ground arith)

tail_AtMostOnce : (x : Text) (l : List Text) → AtMostOnce (x ∷ l) → AtMostOnce l
tail_AtMostOnce x l once t = let bound = once t in ground arith

outside_parts : (a b : Bool) → (a || b) ≡ false → (a ≡ false) × (b ≡ false)
outside_parts false b h = (refl, h)
outside_parts true b h = cc

differs_sym : (s t : Text) → (s == t) ≡ false → (t == s) ≡ false
differs_sym s t h = ground arith

verified_inv :
    (c : RuntimePendingChange) (read : ReadResult)
    → verified c read ≡ written
    → read ≡ found c.value
unfolding verified
verified_inv c (unread e) h = cc
verified_inv c not_found h = cc
verified_inv c (found actual) h = ground arith

module _ {W : Type 0} (run_command : List Text → W → W × Reply) (scope key name_server : Text)
    (view : W → Text → Text) (Accepts : Text → Text → Type 0)
    (laws : CommandLaws run_command scope key name_server view Accepts) where
  -- The result that is reported for a change.
  abbrev pub reported : RuntimePendingChange → RuntimeConfigChangeResult
  reported c = change_result run_command scope key name_server c (not (c.previous == c.value))

  after_write-written :
      (c : RuntimePendingChange) (w : W) (error : Option Text)
      → (after_write run_command scope key name_server c (w, error)).1 ≡ written
      → view (after_write run_command scope key name_server c (w, error)).0 c.target ≡ c.value
  unfolding after_write
  after_write-written c w (some message) e = cc
  after_write-written c w none e =
      let read = read_runtime_config_value run_command scope c.target key w in
      laws.read_keeps c.target c.target w
      ∙ sym (laws.read_sees c.target c.value w (verified_inv c read.1 e))

  apply_change-written :
      (c : RuntimePendingChange) (w : W)
      → (apply_change run_command scope key name_server c w).1 ≡ written
      → (view (apply_change run_command scope key name_server c w).0 c.target ≡ c.value)
        × ((c.previous == c.value) ≡ false)
  unfolding apply_change
  apply_change-written c w e =
      let write = write_runtime_config_value run_command scope c.target key c.value name_server w in
      elim (Bool-cases (c.previous == c.value)) [
        | inl equal ↦ ground arith
        | inr changes ↦
            let wrote : apply_change run_command scope key name_server c w
                ≡ after_write run_command scope key name_server c write =
              rw (changes, apply_change) refl in
            (
              ap (λ p. view p.0 c.target) wrote
                  ∙ after_write-written c write.0 write.1 (sym (ap (λ p. p.1) wrote) ∙ e),
              changes,
            )
      ]

  kept_equal :
      (c : RuntimePendingChange) (w : W)
      → (apply_change run_command scope key name_server c w).1 ≡ kept
      → (c.previous == c.value) ≡ true
  unfolding apply_change after_write verified
  kept_equal c w e = ground arith

  -- Every change has its result, its node has the new value, and no other node is changed.
  abbrev pub AllApplied :
      List RuntimePendingChange → List RuntimeConfigChangeResult → W → Applying W → Type 0
  AllApplied pending results w after =
      (after.payload.results ≡ results ++ map reported pending)
      × ((asked : Text)
          → contains (change_targets pending) asked ≡ false
          → view after.world asked ≡ view w asked)
      × All (λ c. view after.world c.target ≡ c.value) pending

  -- One change that is kept or written, in front of a run that succeeds.
  after_change :
      (c : RuntimePendingChange) (pending : List RuntimePendingChange)
      (results : List RuntimeConfigChangeResult) (w w' : W) (changed : Bool) (after : Applying W)
      → changed ≡ not (c.previous == c.value)
      → contains (change_targets pending) c.target ≡ false
      → view w' c.target ≡ c.value
      → ((asked : Text) → (c.target == asked) ≡ false → view w' asked ≡ view w asked)
      → AllApplied pending
          (results ++ change_result run_command scope key name_server c changed ∷ [])
          w'
          after
      → AllApplied (c ∷ pending) results w after
  after_change c pending results w w' changed after e only here others (listed, outside, done) = (
    listed
        ∙ append_assoc results (change_result run_command scope key name_server c changed ∷ [])
            (map reported pending)
        ∙ ap
            (λ b.
              results
              ++ (change_result run_command scope key name_server c b ∷ map reported pending))
            e,
    λ asked h.
        let parts = outside_parts (c.target == asked) (contains (change_targets pending) asked) h in
        outside asked parts.1 ∙ others asked parts.0,
    (outside c.target only ∙ here, done),
  )

  still_previous :
      (c : RuntimePendingChange) (pending : List RuntimePendingChange) (w w' : W)
      → contains (change_targets pending) c.target ≡ false
      → ((asked : Text) → (c.target == asked) ≡ false → view w' asked ≡ view w asked)
      → All (λ d. d.previous ≡ view w d.target) pending
      → All (λ d. d.previous ≡ view w' d.target) pending
  still_previous c [] w w' only others _ = tt
  still_previous c (d ∷ pending) w w' only others (p, ps) =
      let parts =
        outside_parts (d.target == c.target) (contains (change_targets pending) c.target) only in
      (
        p ∙ sym (others d.target (differs_sym d.target c.target parts.0)),
        still_previous c pending w w' parts.1 others ps,
      )

  fail_with_fails :
      (results : List RuntimeConfigChangeResult) (applied : List RuntimePendingChange)
      (rolled_back : Bool) (cause : ApplyCause) (w : W)
      → (fail_with run_command scope key name_server results applied rolled_back cause w).failure
        ≢ none
  unfolding fail_with
  fail_with_fails results applied rolled_back cause w e = cc

  module _ (c : RuntimePendingChange) (pending : List RuntimePendingChange)
      (results : List RuntimeConfigChangeResult) (applied : List RuntimePendingChange) (w : W) where
    step_kept :
        (apply_change run_command scope key name_server c w).1 ≡ kept
        → apply_changes run_command scope key name_server (c ∷ pending) results applied w
          ≡ apply_changes run_command scope key name_server pending
              (results ++ change_result run_command scope key name_server c false ∷ [])
              applied
              (apply_change run_command scope key name_server c w).0
    unfolding apply_changes
    step_kept o = rw (o, apply_changes) refl

    step_written :
        (apply_change run_command scope key name_server c w).1 ≡ written
        → apply_changes run_command scope key name_server (c ∷ pending) results applied w
          ≡ apply_changes run_command scope key name_server pending
              (results ++ change_result run_command scope key name_server c true ∷ [])
              (applied ++ c ∷ [])
              (apply_change run_command scope key name_server c w).0
    unfolding apply_changes
    step_written o = rw (o, apply_changes) refl

  pub apply_changes-AllApplied :
      (pending : List RuntimePendingChange) (results : List RuntimeConfigChangeResult)
      (applied : List RuntimePendingChange) (w : W)
      → AtMostOnce (change_targets pending)
      → All (λ c. c.previous ≡ view w c.target) pending
      → (apply_changes run_command scope key name_server pending results applied w).failure ≡ none
      → AllApplied pending results w
          (apply_changes run_command scope key name_server pending results applied w)
  unfolding apply_changes
  apply_changes-AllApplied [] results applied w once previous e =
      (sym (append-nil results), λ asked h. refl, tt)
  apply_changes-AllApplied (c ∷ pending) results applied w once (p, ps) e =
      let step = apply_change run_command scope key name_server c w in
      let only = head_only c.target (change_targets pending) once in
      let rest = tail_AtMostOnce c.target (change_targets pending) once in
      let others : (asked : Text) → (c.target == asked) ≡ false → view step.0 asked ≡ view w asked =
        λ asked differs.
          apply_change_others run_command scope key name_server view Accepts laws c w asked
            differs in
      let old = still_previous c pending w step.0 only others ps in
      elim (outcome_cases step.1) [
        | is_kept o ↦
            let same = kept_equal c w o in
            let world =
              apply_change_kept run_command scope key name_server view Accepts laws c w o in
            let run = step_kept c pending results applied w o in
            let tail =
              apply_changes run_command scope key name_server pending
                (results ++ change_result run_command scope key name_server c false ∷ []) applied
                step.0 in
            subst (AllApplied (c ∷ pending) results w) (sym run) (
              after_change c pending results w step.0 false tail (rw same refl) only
                (ap (λ x. view x c.target) world ∙ sym p ∙ ==→≡ c.previous c.value same) others
                (apply_changes-AllApplied pending
                  (results ++ change_result run_command scope key name_server c false ∷ []) applied
                  step.0 rest old (sym (ap (λ a. a.failure) run) ∙ e)))
        | is_written o ↦
            let wrote = apply_change-written c w o in
            let run = step_written c pending results applied w o in
            let tail =
              apply_changes run_command scope key name_server pending
                (results ++ change_result run_command scope key name_server c true ∷ [])
                (applied ++ c ∷ []) step.0 in
            subst (AllApplied (c ∷ pending) results w) (sym run) (
              after_change c pending results w step.0 true tail (rw wrote.1 refl) only wrote.0
                others
                (apply_changes-AllApplied pending
                  (results ++ change_result run_command scope key name_server c true ∷ [])
                  (applied ++ c ∷ []) step.0 rest old (sym (ap (λ a. a.failure) run) ∙ e)))
        | is_not_written cause o ↦ absurd (
            fail_with_fails results applied (ltb 0 (length applied)) cause step.0
              (rw (o, apply_changes) at e))
        | is_not_verified cause o ↦ absurd (
            fail_with_fails results (applied ++ c ∷ []) true cause step.0
              (rw (o, apply_changes) at e))
      ]
