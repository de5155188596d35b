-- ===== src/Chain/Timeline.antt =====
-- The steps of the chain that `BuildMessageStatusChain` returns: which they are, and their order.
use mathlib.Core.Path.{fun_ext, subst}
use mathlib.Core.List.{Perm}
use go_rocketmq_dashboard.Base.{
  ◌≡◌, ◌⊎◌, ◌∙◌, ap, refl, true, false, not, ◌&&◌, ◌||◌, ltb, nat_eq, All, List, [], ◌∷◌, ◌++◌, map,
  arith, ◌==◌, contains, any, filter, text_eq, Bool,
}
use go_rocketmq_dashboard.Base.Int.{ℤ, lt_int, int_eq, lt_int-IsWeakOrder, lt_int_antisymm}
use go_rocketmq_dashboard.Base.Lex.{lex_less-IsWeakOrder}
use go_rocketmq_dashboard.Base.Sort.{
  IsWeakOrder, IsSorted, same_rank, sort_stable, sort_stable-perm, sort_stable-IsSorted,
  sort_stable-same_rank,
}
use go_rocketmq_dashboard.Base.Text.{Text, text}
use go_rocketmq_dashboard.Chain.{
  MessageDetail, TraceEvent, ConsumerState, MessageStatusStep, is_consume_stage, step_rank,
  consume_trace_groups, latest_timestamp, stored_step, trace_step, offset_step, offset_steps,
  step_less, collected_steps, build_message_status_chain,
}

pub step_less-IsWeakOrder : IsWeakOrder step_less
unfolding step_less
step_less-IsWeakOrder =
    lex_less-IsWeakOrder (λ s. s.timestamp) (λ s. step_rank s.stage) lt_int lt_int-IsWeakOrder
      lt_int_antisymm

-- Some event of the list is a consume event of the group.
abbrev pub consumed_by : List TraceEvent → Text → Bool
consumed_by traces group =
    any (λ event. is_consume_stage event.stage && event.group == group) traces

contains-consume_trace_groups :
    (traces : List TraceEvent) (group : Text)
    → contains (consume_trace_groups traces) group ≡ consumed_by traces group
unfolding consume_trace_groups
contains-consume_trace_groups [] group = refl
contains-consume_trace_groups (event ∷ events) group =
    ground (arith, contains-consume_trace_groups events group)

-- The consumer groups that no consume event stands for.
abbrev pub untraced : List TraceEvent → List ConsumerState → List ConsumerState
untraced traces offsets = filter (λ state. not (consumed_by traces state.group)) offsets

offset_steps-untraced :
    (traces : List TraceEvent) (latest : ℤ) (offsets : List ConsumerState)
    → offset_steps (consume_trace_groups traces) latest offsets
      ≡ map (offset_step latest) (untraced traces offsets)
unfolding offset_steps
offset_steps-untraced traces latest [] = refl
offset_steps-untraced traces latest (state ∷ states) = ground (
  arith,
  offset_steps-untraced traces latest states,
  contains-consume_trace_groups traces state.group,
)

abbrev pub is_stored : Text → Bool
is_stored stage = stage == text "STORED"

abbrev pub is_send : Text → Bool
is_send stage = stage == text "SEND_SUCCESS" || stage == text "SEND_FAILED"

-- `CONSUMED` is not one of these: it stands with the others.
abbrev pub is_consume_result : Text → Bool
is_consume_result stage = stage == text "CONSUME_SUCCESS" || stage == text "CONSUME_FAILED"

-- At one time, the stored step stands first, then sending, then consuming, then all else.
abbrev pub may_precede : Text → Text → Bool
may_precede earlier later =
    is_stored earlier
    || (not (is_stored later)
        && (is_send earlier
            || (not (is_send later)
                && (is_consume_result earlier || not (is_consume_result later)))))

may_precede-step_rank :
    (earlier later : Text)
    → may_precede earlier later ≡ not (ltb (step_rank later) (step_rank earlier))
unfolding step_rank
may_precede-step_rank earlier later = ground arith

-- One time and one kind of stage.
abbrev pub same_slot : MessageStatusStep → MessageStatusStep → Bool
same_slot a b =
    a.timestamp == b.timestamp && may_precede a.stage b.stage && may_precede b.stage a.stage

same_rank-same_slot : (a b : MessageStatusStep) → same_rank step_less a b ≡ same_slot a b
unfolding step_less
same_rank-same_slot a b = ground (
  arith,
  lt_int_antisymm a.timestamp b.timestamp,
  may_precede-step_rank a.stage b.stage,
  may_precede-step_rank b.stage a.stage,
)

sort_stable-same_slot :
    (step : MessageStatusStep) (steps : List MessageStatusStep)
    → filter (same_slot step) (sort_stable step_less steps) ≡ filter (same_slot step) steps
sort_stable-same_slot step steps =
    subst (λ p. filter p (sort_stable step_less steps) ≡ filter p steps)
      (fun_ext (same_rank-same_slot step))
      (sort_stable-same_rank step_less step_less-IsWeakOrder step steps)

abbrev pub StandsBefore : MessageStatusStep → MessageStatusStep → Type 0
StandsBefore a b =
    (lt_int a.timestamp b.timestamp ≡ true)
    ⊎ ((a.timestamp ≡ b.timestamp) × (may_precede a.stage b.stage ≡ true))

-- Every step stands before all that follow it.
abbrev pub IsTimeline : List MessageStatusStep → Type 0
IsTimeline [] = Unit
IsTimeline (step ∷ steps) = All (StandsBefore step) steps × IsTimeline steps

not_less-StandsBefore : (a b : MessageStatusStep) → step_less b a ≡ false → StandsBefore a b
unfolding step_less
not_less-StandsBefore a b h =
    ground (arith, lt_int_antisymm a.timestamp b.timestamp, may_precede-step_rank a.stage b.stage)

All-StandsBefore :
    (step : MessageStatusStep) (steps : List MessageStatusStep)
    → All (λ y. step_less y step ≡ false) steps
    → All (StandsBefore step) steps
All-StandsBefore step [] _ = tt
All-StandsBefore step (y ∷ ys) (h, t) = (not_less-StandsBefore step y h, All-StandsBefore step ys t)

IsSorted-IsTimeline : (steps : List MessageStatusStep) → IsSorted step_less steps → IsTimeline steps
IsSorted-IsTimeline [] _ = tt
IsSorted-IsTimeline (step ∷ steps) (h, t) =
    (All-StandsBefore step steps h, IsSorted-IsTimeline steps t)

module _ (message : MessageDetail) (traces : List TraceEvent) (offsets : List ConsumerState) where
  -- The steps are the stored step, one step for each trace event, and one for each consumer group
  -- without a consume event, and no others.
  pub steps-perm : Perm (build_message_status_chain message traces offsets).steps (
      stored_step message ∷ map trace_step traces
      ++ map
          (offset_step (latest_timestamp message.store_timestamp traces))
          (untraced traces offsets))
  unfolding build_message_status_chain
  steps-perm =
      rw (← offset_steps-untraced traces (latest_timestamp message.store_timestamp traces) offsets)
        (sort_stable-perm step_less (collected_steps message traces offsets))

  -- Of two steps, the earlier in the chain has the smaller time, or the two have one time and the
  -- stored step stands first, then SEND_SUCCESS and SEND_FAILED, then CONSUME_SUCCESS and
  -- CONSUME_FAILED, then the others;
  -- and steps of one time and one such kind stand as they came: the stored step, the trace events,
  -- the consumer groups without a consume event.
  pub steps-IsTimeline :
      IsTimeline (build_message_status_chain message traces offsets).steps
      × ((step : MessageStatusStep)
          → filter (same_slot step) (build_message_status_chain message traces offsets).steps
            ≡ filter (same_slot step) (
                stored_step message ∷ map trace_step traces
                ++ map
                    (offset_step (latest_timestamp message.store_timestamp traces))
                    (untraced traces offsets)))
  unfolding build_message_status_chain collected_steps
  steps-IsTimeline = (
    IsSorted-IsTimeline (sort_stable step_less (collected_steps message traces offsets)) (
        sort_stable-IsSorted step_less step_less-IsWeakOrder
          (collected_steps message traces offsets)),
    λ step.
        sort_stable-same_slot step (collected_steps message traces offsets)
        ∙ ap (λ l. filter (same_slot step) (stored_step message ∷ map trace_step traces ++ l))
            (offset_steps-untraced traces (latest_timestamp message.store_timestamp traces)
              offsets),
  )
