-- ===== src/Shadow/Workers/Schedules.antt =====
-- Every complete schedule of the workers leaves the results of the sequential loop.
use go_rocketmq_dashboard.Base.{
  ℕ, zero, suc, ◌+◌, ◌≡◌, ◌≢◌, ◌∙◌, refl, sym, ap, inl, inr, Bool, true, false, ◌||◌, Bool-cases,
  if◌then◌else◌, ◌==◌, nat_eq, List, [], ◌∷◌, ◌++◌, map, All, contains, length, get_elem?, some,
  arith,
}
use mathlib.Core.Path.{subst}
use native.Mathlib.Nat.{add-zero, zero-add}
use go_rocketmq_dashboard.Shadow.Workers.{
  set_result, jobs_from, Pool, PoolStep, send, write, PoolSteps, done, next, IsComplete,
}

-- Writing the value that `ys` has there brings one element closer to `ys`.
get_elem?-set_result :
    {R : Type 0} (xs ys : List R) (i j : ℕ) (v : R)
    → length xs ≡ length ys
    → get_elem? ys i ≡ some v
    → get_elem? (set_result xs i v) j ≡ (if i == j then get_elem? ys j else get_elem? xs j)
unfolding set_result
get_elem?-set_result [] [] i j v e h = cc
get_elem?-set_result [] (y ∷ ys) i j v e h = absurd (omega arith)
get_elem?-set_result (x ∷ xs) [] i j v e h = absurd (omega arith)
get_elem?-set_result (x ∷ xs) (y ∷ ys) zero zero v e h = ground arith
get_elem?-set_result (x ∷ xs) (y ∷ ys) zero (suc j) v e h = ground arith
get_elem?-set_result (x ∷ xs) (y ∷ ys) (suc i) zero v e h = ground arith
get_elem?-set_result (x ∷ xs) (y ∷ ys) (suc i) (suc j) v e h =
    let rest = get_elem?-set_result xs ys i j v (omega arith) h in ground arith

length-set_result :
    {R : Type 0} (xs : List R) (i : ℕ) (v : R) → length (set_result xs i v) ≡ length xs
unfolding set_result
length-set_result [] i v = refl
length-set_result (x ∷ xs) zero v = refl
length-set_result (x ∷ xs) (suc i) v = ap suc (length-set_result xs i v)

list_ext : {R : Type 0} (xs ys : List R) → ((i : ℕ) → get_elem? xs i ≡ get_elem? ys i) → xs ≡ ys
list_ext [] [] h = refl
list_ext [] (y ∷ ys) h = let e = h 0 in cc e
list_ext (x ∷ xs) [] h = let e = h 0 in cc e
list_ext (x ∷ xs) (y ∷ ys) h = let e = h 0 in let rest = list_ext xs ys (λ i. h (suc i)) in cc

abbrev indices : {A : Type 0} → List (ℕ × A) → List ℕ
indices [] = []
indices ((i, a) ∷ jobs) = i ∷ indices jobs

contains-append :
    {A : Type 0} (before : List (ℕ × A)) (job : ℕ × A) (after : List (ℕ × A)) (i : ℕ)
    → contains (indices (before ++ job ∷ after)) i
      ≡ (job.0 == i || contains (indices (before ++ after)) i)
contains-append [] job after i = refl
contains-append (b ∷ before) job after i = ground (arith, contains-append before job after i)

All-remove {κ} :
    {A : Type 0} (P : A → Type κ) (before : List A) (x : A) (after : List A)
    → All P (before ++ x ∷ after)
    → P x × All P (before ++ after)
All-remove P [] x after h = h
All-remove P (b ∷ before) x after (hb, h) =
    let rest = All-remove P before x after h in (rest.0, (hb, rest.1))

or_false : (a b : Bool) → (a || b) ≡ false → (a ≡ false) × (b ≡ false)
or_false false b h = (refl, h)
or_false true b h = cc

both_false : (a b : Bool) → a ≡ false → b ≡ false → (a || b) ≡ false
both_false a b h k = rw (h, k) refl

module _ {A R : Type 0} (run : A → R) (workers : ℕ) (target : List R) where
  -- Each outstanding job writes what the target has at its index; elsewhere the target is reached.
  record IsOnWay (p : Pool A R) : Type 0 where
    size : length p.results ≡ length target
    sent_right : All (λ (job : ℕ × A). get_elem? target job.0 ≡ some (run job.1)) p.running
    unsent_right : All (λ (job : ℕ × A). get_elem? target job.0 ≡ some (run job.1)) p.unsent
    reached :
        (i : ℕ)
        → contains (indices p.running) i ≡ false
        → contains (indices p.unsent) i ≡ false
        → get_elem? p.results i ≡ get_elem? target i

  step-IsOnWay : (p q : Pool A R) → PoolStep run workers p q → IsOnWay p → IsOnWay q
  step-IsOnWay p _ (send _ job rest e free) v =
      let outstanding =
        subst (All (λ (j : ℕ × A). get_elem? target j.0 ≡ some (run j.1))) e v.unsent_right in
      record {
        size = v.size;
        sent_right = (outstanding.0, v.sent_right);
        unsent_right = outstanding.1;
        reached = λ i h k.
            let parts = or_false (job.0 == i) (contains (indices p.running) i) h in
            v.reached i parts.1
              (ap (λ l. contains (indices l) i) e ∙ both_false (job.0 == i) _ parts.0 k);
      }
  step-IsOnWay p _ (write _ before job after e) v =
      let parts =
        All-remove (λ (j : ℕ × A). get_elem? target j.0 ≡ some (run j.1)) before job after
          (subst (All (λ (j : ℕ × A). get_elem? target j.0 ≡ some (run j.1))) e v.sent_right) in
      record {
        size = length-set_result p.results job.0 (run job.1) ∙ v.size;
        sent_right = parts.1;
        unsent_right = v.unsent_right;
        reached = λ i h k.
            let written =
              get_elem?-set_result p.results target job.0 i (run job.1) v.size parts.0 in
            elim (Bool-cases (job.0 == i)) [
              | inl here ↦ written ∙ rw here refl
              | inr elsewhere ↦
                  written
                  ∙ rw elsewhere (
                      v.reached i
                        (ap (λ l. contains (indices l) i) e
                          ∙ contains-append before job after i
                          ∙ both_false (job.0 == i) _ elsewhere h)
                        k)
            ];
      }

  steps-IsOnWay : (n : ℕ) (p q : Pool A R) → PoolSteps run workers n p q → IsOnWay p → IsOnWay q
  steps-IsOnWay _ _ _ (done p) v = v
  steps-IsOnWay _ _ _ (next n p q r step steps) v =
      steps-IsOnWay n q r steps (step-IsOnWay p q step v)

  complete-IsOnWay : (p : Pool A R) → IsComplete p → IsOnWay p → p.results ≡ target
  complete-IsOnWay p (sent, idle) v = list_ext p.results target (λ i.
      v.reached i (ap (λ l. contains (indices l) i) idle) (ap (λ l. contains (indices l) i) sent))

add-suc' : (k j : ℕ) → suc k + j ≡ k + suc j
add-suc' k j = omega arith

head_contained : (i : ℕ) (rest : List ℕ) → (i == i + 0 || contains rest (i + 0)) ≢ false
head_contained i rest h = ground arith

-- At the start every job is unsent, and the slice is as long as the samples.
length-map :
    {A R : Type 0} (run : A → R) (samples : List A) → length (map run samples) ≡ length samples
length-map run [] = refl
length-map run (s ∷ samples) = ap suc (length-map run samples)

jobs_from_right :
    {A R : Type 0} (run : A → R) (results : List R) (k : ℕ) (samples : List A)
    → ((j : ℕ) → get_elem? results (k + j) ≡ get_elem? (map run samples) j)
    → All (λ (job : ℕ × A). get_elem? results job.0 ≡ some (run job.1)) (jobs_from k samples)
unfolding jobs_from
jobs_from_right run results k [] h = tt
jobs_from_right run results k (s ∷ samples) h = (
  ap (get_elem? results) (sym (add-zero k)) ∙ h 0,
  jobs_from_right run results (suc k) samples
      (λ j. ap (get_elem? results) (add-suc' k j) ∙ h (suc j)),
)

not_contained :
    {A R : Type 0} (run : A → R) (i : ℕ) (samples : List A) (zeros : List R) (j : ℕ)
    → length zeros ≡ length samples
    → contains (indices (jobs_from i samples)) (i + j) ≡ false
    → get_elem? zeros j ≡ get_elem? (map run samples) j
unfolding jobs_from
not_contained run i [] [] j e h = refl
not_contained run i [] (z ∷ zeros) j e h = absurd (omega arith)
not_contained run i (s ∷ samples) [] j e h = absurd (omega arith)
not_contained run i (s ∷ samples) (z ∷ zeros) zero e h =
    absurd (head_contained i (indices (jobs_from (suc i) samples)) h)
not_contained run i (s ∷ samples) (z ∷ zeros) (suc j) e h =
    not_contained run (suc i) samples zeros j (omega arith) (
      ap (contains (indices (jobs_from (suc i) samples))) (add-suc' i j)
      ∙ (or_false (i == i + suc j) _ h).1)

abbrev pub initial_pool : {A R : Type 0} → List A → List R → Pool A R
initial_pool samples zeros = record { unsent = jobs_from 0 samples; running = []; results = zeros }

initial-IsOnWay :
    {A R : Type 0} (run : A → R) (workers : ℕ) (samples : List A) (zeros : List R)
    → length zeros ≡ length samples
    → IsOnWay run workers (map run samples) (initial_pool samples zeros)
initial-IsOnWay run workers samples zeros e = record {
  size = e ∙ sym (length-map run samples);
  sent_right = tt;
  unsent_right =
      jobs_from_right run (map run samples) 0 samples
        (λ j. ap (get_elem? (map run samples)) (zero-add j));
  reached = λ i _ h.
      not_contained run 0 samples zeros i e
        (ap (contains (indices (jobs_from 0 samples))) (zero-add i) ∙ h);
}

-- Whatever the order in which the workers take and finish the jobs, when all is done the slice holds
-- the result of each sample at its place, which is what the sequential loop leaves.
pub schedule_lem :
    {A R : Type 0} (run : A → R) (workers n : ℕ) (samples : List A) (zeros : List R) (p : Pool A R)
    → length zeros ≡ length samples
    → PoolSteps run workers n (initial_pool samples zeros) p
    → IsComplete p
    → p.results ≡ map run samples
schedule_lem run workers n samples zeros p e steps complete =
    complete-IsOnWay run workers (map run samples) p complete (
      steps-IsOnWay run workers (map run samples) n (initial_pool samples zeros) p steps
        (initial-IsOnWay run workers samples zeros e))
