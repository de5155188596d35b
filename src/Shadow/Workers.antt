-- ===== src/Shadow/Workers.antt =====
-- internal/rocketmq/goadmin/shadow_batch.go, runConcreteShadowSamples: a channel of jobs and the
-- workers that take them. Each job writes one element of a shared slice, by its index.
pub mod Schedules
pub mod Ends
pub mod Sequential
use go_rocketmq_dashboard.Base.{
  ℕ, zero, suc, ◌+◌, ◌*◌, ◌<◌, ◌≤◌, ◌≡◌, ◌∙◌, refl, sym, ap, ◌⊎◌, inl, inr, Bool, true, false, ◌||◌,
  Bool-cases, if◌then◌else◌, ◌==◌, ==→≡, ==_refl, nat_eq, List, [], ◌∷◌, ◌++◌, map, All, All-append,
  contains, length, length-append, get_elem?, Option, none, some, arith,
}

-- `results[index] = value`
unfoldable pub set_result : {R : Type 0} → List R → ℕ → R → List R
set_result [] i v = []
set_result (x ∷ xs) zero v = v ∷ xs
set_result (x ∷ xs) (suc i) v = x ∷ set_result xs i v

-- The jobs of the samples, with their indices from `i` on.
unfoldable pub jobs_from : {A : Type 0} → ℕ → List A → List (ℕ × A)
jobs_from i [] = []
jobs_from i (sample ∷ samples) = (i, sample) ∷ jobs_from (suc i) samples

-- The loop of one worker or none.
unfoldable pub run_jobs : {A R : Type 0} → (A → R) → List (ℕ × A) → List R → List R
unfolding set_result
run_jobs run [] results = results
run_jobs run ((index, sample) ∷ jobs) results =
    run_jobs run jobs (set_result results index (run sample))

-- The jobs that are not yet sent, the ones that a worker has, and the shared slice.
pub record Pool (A R : Type 0) : Type 0 where
  pub unsent : List (ℕ × A)
  pub running : List (ℕ × A)
  pub results : List R

module _ {A R : Type 0} (run : A → R) (workers : ℕ) where
  -- A free worker receives the next job, or a worker writes the result of the job that it has.
  pub data PoolStep : Pool A R → Pool A R → Type 0 where
    send :
        (p : Pool A R) (job : ℕ × A) (rest : List (ℕ × A))
        → p.unsent ≡ job ∷ rest
        → length p.running < workers
        → PoolStep p (record p { unsent = rest; running = job ∷ p.running })
    write :
        (p : Pool A R) (before : List (ℕ × A)) (job : ℕ × A) (after : List (ℕ × A))
        → p.running ≡ before ++ job ∷ after
        → PoolStep p (record p {
          running = before ++ after;
          results = set_result p.results job.0 (run job.1);
        })

  -- A schedule: any number of steps.
  pub data PoolSteps : ℕ → Pool A R → Pool A R → Type 0 where
    done : (p : Pool A R) → PoolSteps 0 p p
    next : (n : ℕ) (p q r : Pool A R) → PoolStep p q → PoolSteps n q r → PoolSteps (suc n) p r

-- `close(jobCh); wg.Wait()`
abbrev pub IsComplete : {A R : Type 0} → Pool A R → Type 0
IsComplete p = (p.unsent ≡ []) × (p.running ≡ [])
