-- ===== src/Chain/Status.antt =====
-- `overallStatusFromSteps`: the status of a message is its last business step.
use mathlib.Core.List.{reverse, reverse-cons}
use go_rocketmq_dashboard.Base.{
  ◌≡◌, ◌≢◌, refl, ap, true, false, not, ◌||◌, List, [], ◌∷◌, ◌++◌, arith, if◌then◌else◌, ◌==◌, any,
  All, text_eq, inl, inr, Bool-cases, Bool,
}
use go_rocketmq_dashboard.Base.Sort.{any-sort_stable}
use go_rocketmq_dashboard.Base.Text.{Text, text}
use go_rocketmq_dashboard.Chain.{
  MessageDetail, TraceEvent, ConsumerState, MessageStatusStep, stored_step, last_business_stage,
  overall_status_from_steps, step_less, collected_steps, build_message_status_chain,
}

abbrev pub trace_missing : Text
trace_missing = text "TRACE_MISSING"

abbrev pub is_business : MessageStatusStep → Bool
is_business step = not (step.stage == trace_missing)

-- The stage is that of a business step with none but missing traces behind it.
pub record IsLastBusiness (steps : List MessageStatusStep) (stage : Text) : Type 0 where
  pub before : List MessageStatusStep
  pub last : MessageStatusStep
  pub after : List MessageStatusStep
  pub splits : steps ≡ before ++ last ∷ after
  pub is_stage : last.stage ≡ stage
  pub business : last.stage ≢ trace_missing
  pub missing_after : All (λ step. step.stage ≡ trace_missing) after

last_business_stage-concat :
    (r : List MessageStatusStep) (x : MessageStatusStep)
    → last_business_stage (r ++ x ∷ [])
      ≡ (if any is_business r then last_business_stage r else last_business_stage (x ∷ []))
unfolding last_business_stage
last_business_stage-concat [] x = refl
last_business_stage-concat (y ∷ r) x = ground (arith, last_business_stage-concat r x)

any-append :
    (p : MessageStatusStep → Bool) (xs ys : List MessageStatusStep)
    → any p (xs ++ ys) ≡ (any p xs || any p ys)
any-append p [] ys = refl
any-append p (x ∷ xs) ys = ground (arith, any-append p xs ys)

any-reverse :
    (p : MessageStatusStep → Bool) (xs : List MessageStatusStep) → any p (reverse xs) ≡ any p xs
any-reverse p [] = refl
any-reverse p (x ∷ xs) =
    rw reverse-cons (ground (arith, any-append p (reverse xs) (x ∷ []), any-reverse p xs))

overall-cons :
    (x : MessageStatusStep) (xs : List MessageStatusStep)
    → overall_status_from_steps (x ∷ xs)
      ≡ (if any is_business xs then overall_status_from_steps xs else last_business_stage (x ∷ []))
unfolding overall_status_from_steps
overall-cons x xs = rw (reverse-cons, last_business_stage-concat, any-reverse)

none_business :
    (xs : List MessageStatusStep)
    → any is_business xs ≡ false
    → All (λ step. step.stage ≡ trace_missing) xs
none_business [] h = tt
none_business (x ∷ xs) h = (ground arith, none_business xs (ground arith))

later :
    (x : MessageStatusStep) {xs : List MessageStatusStep} {stage : Text}
    → IsLastBusiness xs stage
    → IsLastBusiness (x ∷ xs) stage
later x h = record {
  before = x ∷ h.before;
  last = h.last;
  after = h.after;
  splits = ap (◌∷◌ x) h.splits;
  is_stage = h.is_stage;
  business = h.business;
  missing_after = h.missing_after;
}

-- The business step that the scan from the end stops at is the last one, if there is any.
pub overall-IsLastBusiness :
    (steps : List MessageStatusStep)
    → any is_business steps ≡ true
    → IsLastBusiness steps (overall_status_from_steps steps)
overall-IsLastBusiness [] h = cc
overall-IsLastBusiness (x ∷ xs) h = elim (Bool-cases (any is_business xs)) [
  | inl e ↦ rw (overall-cons, e) (later x (overall-IsLastBusiness xs e))
  | inr e ↦
      rw (overall-cons, e)
        (record {
          before = [];
          last = x;
          after = xs;
          splits = refl;
          is_stage = unfold last_business_stage in ground arith;
          business = ground arith;
          missing_after = none_business xs e;
        })
]

-- The overall status of a chain is the stage of its last step other than TRACE_MISSING: there is
-- such a step, and none but TRACE_MISSING steps stand behind it.
pub overall_status-IsLastBusiness :
    (message : MessageDetail) (traces : List TraceEvent) (offsets : List ConsumerState)
    → IsLastBusiness
        (build_message_status_chain message traces offsets).steps
        (build_message_status_chain message traces offsets).overall_status
unfolding build_message_status_chain stored_step text_eq
overall_status-IsLastBusiness message traces offsets =
    overall-IsLastBusiness _
      (any-sort_stable step_less is_business (collected_steps message traces offsets))
