-- ===== src/Shadow/Workers/Ends.antt =====
-- The schedules of the workers end, and never have too many jobs running.
use go_rocketmq_dashboard.Base.{
  ℕ, zero, suc, ◌+◌, ◌-◌, ◌*◌, ◌<◌, ◌≤◌, ◌≡◌, refl, ap, ◌⊎◌, inl, inr, nat_eq, List, [], ◌∷◌,
  length, length-append, arith,
}
use go_rocketmq_dashboard.Shadow.Workers.{
  set_result, jobs_from, Pool, PoolStep, send, write, PoolSteps, done, next, IsComplete,
}
use go_rocketmq_dashboard.Shadow.Workers.Schedules.{initial_pool}

-- The steps that are left: two for a job that is not sent, one for a job that runs.
abbrev pub steps_left : {A R : Type 0} → Pool A R → ℕ
steps_left p = 2 * length p.unsent + length p.running

step_left :
    {A R : Type 0} (run : A → R) (workers : ℕ) (p q : Pool A R)
    → PoolStep run workers p q
    → steps_left p ≡ suc (steps_left q)
step_left run workers p _ (send _ job rest e free) = omega (arith, ap length e)
step_left run workers p _ (write _ before job after e) =
    omega (arith, ap length e, length-append before (job ∷ after), length-append before after)

steps-steps_left :
    {A R : Type 0} (run : A → R) (workers n : ℕ) (p q : Pool A R)
    → PoolSteps run workers n p q
    → steps_left p ≡ n + steps_left q
steps-steps_left run workers _ _ _ (done p) = omega arith
steps-steps_left run workers _ _ _ (next n p q r step steps) =
    omega (arith, step_left run workers p q step, steps-steps_left run workers n q r steps)

module _ {A R : Type 0} (run : A → R) (workers : ℕ) (some_worker : 0 < workers) where
  -- A state that is not complete has a next step.
  progress_of :
      (p : Pool A R) (running unsent : List (ℕ × A))
      → p.running ≡ running
      → p.unsent ≡ unsent
      → IsComplete p ⊎ ((q : Pool A R) × PoolStep run workers p q)
  progress_of p [] [] r u = inl (u, r)
  progress_of p (job ∷ running) unsent r u = inr (
    record p { running = running; results = set_result p.results job.0 (run job.1) },
    write p [] job running r,
  )
  progress_of p [] (job ∷ unsent) r u = inr (
    record p { unsent = unsent; running = job ∷ p.running },
    send p job unsent u (omega (arith, ap length r)),
  )

  progress : (p : Pool A R) → IsComplete p ⊎ ((q : Pool A R) × PoolStep run workers p q)
  progress p = progress_of p p.running p.unsent refl refl

  -- Every schedule from a state ends within the steps that are left, and each can be brought to its
  -- end.
  finish_schedule :
      (n : ℕ) (p : Pool A R)
      → steps_left p ≡ n
      → (q : Pool A R) × PoolSteps run workers n p q × IsComplete q
  finish_schedule zero p e = elim (progress p) [
    | inl complete ↦ (p, done p, complete)
    | inr (q, step) ↦ absurd (omega (arith, step_left run workers p q step))
  ]
  finish_schedule (suc n) p e = elim (progress p) [
    | inl complete ↦ absurd (omega (arith, ap length complete.0, ap length complete.1))
    | inr (q, step) ↦
        let rest = finish_schedule n q (omega (arith, step_left run workers p q step)) in
        (rest.0, next n p q rest.0 step rest.1, rest.2)
  ]

length-jobs_from :
    {A : Type 0} (i : ℕ) (samples : List A) → length (jobs_from i samples) ≡ length samples
unfolding jobs_from
length-jobs_from i [] = refl
length-jobs_from i (s ∷ samples) = ap suc (length-jobs_from (suc i) samples)

-- With a worker, no schedule makes more than two steps for each sample, and each schedule can go on
-- to a state in which all is done, in as many steps as are left of these.
pub schedules_end :
    {A R : Type 0} (run : A → R) (workers n : ℕ) (samples : List A) (zeros : List R) (p : Pool A R)
    → 0 < workers
    → PoolSteps run workers n (initial_pool samples zeros) p
    → (n ≤ 2 * length samples)
      × ((q : Pool A R) × PoolSteps run workers (2 * length samples - n) p q × IsComplete q)
schedules_end run workers n samples zeros p some_worker steps =
    let left = steps-steps_left run workers n (initial_pool samples zeros) p steps in
    let size = length-jobs_from 0 samples in
    (
      omega (arith, left, size),
      finish_schedule run workers some_worker (2 * length samples - n) p
          (omega (arith, left, size)),
    )

step_bound :
    {A R : Type 0} (run : A → R) (workers : ℕ) (p q : Pool A R)
    → PoolStep run workers p q
    → length p.running ≤ workers
    → length q.running ≤ workers
step_bound run workers p _ (send _ job rest e free) h = omega arith
step_bound run workers p _ (write _ before job after e) h =
    omega (arith, ap length e, length-append before (job ∷ after), length-append before after)

-- Never more jobs run than there are workers.
pub running_bound :
    {A R : Type 0} (run : A → R) (workers n : ℕ) (p q : Pool A R)
    → PoolSteps run workers n p q
    → length p.running ≤ workers
    → length q.running ≤ workers
running_bound run workers _ _ _ (done p) h = h
running_bound run workers _ _ _ (next n p q r step steps) h =
    running_bound run workers n q r steps (step_bound run workers p q step h)
