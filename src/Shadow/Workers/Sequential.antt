-- ===== src/Shadow/Workers/Sequential.antt =====
-- The loop of one worker leaves the result of each sample at its place.
use go_rocketmq_dashboard.Base.{
  suc, ◌≡◌, ◌∙◌, refl, sym, ap, nat_eq, List, [], ◌∷◌, ◌++◌, append_assoc, map, length,
  length-append, arith,
}
use mathlib.Core.Path.{subst}
use go_rocketmq_dashboard.Shadow.Workers.{set_result, jobs_from, run_jobs}

set_result-append :
    {R : Type 0} (pre : List R) (x v : R) (rest : List R)
    → set_result (pre ++ x ∷ rest) (length pre) v ≡ pre ++ v ∷ rest
unfolding set_result
set_result-append [] x v rest = refl
set_result-append (y ∷ pre) x v rest = ap (◌∷◌ y) (set_result-append pre x v rest)

run_jobs-append :
    {A R : Type 0} (run : A → R) (pre : List R) (samples : List A) (zeros : List R)
    → length zeros ≡ length samples
    → run_jobs run (jobs_from (length pre) samples) (pre ++ zeros) ≡ pre ++ map run samples
unfolding run_jobs jobs_from
run_jobs-append run pre [] [] e = refl
run_jobs-append run pre [] (z ∷ zeros) e = absurd (omega arith)
run_jobs-append run pre (s ∷ samples) [] e = absurd (omega arith)
run_jobs-append run pre (s ∷ samples) (z ∷ zeros) e =
    let place : length (pre ++ run s ∷ []) ≡ suc (length pre) =
      omega (arith, length-append pre (run s ∷ [])) in
    let rest = run_jobs-append run (pre ++ run s ∷ []) samples zeros (omega arith) in
    ap (run_jobs run (jobs_from (suc (length pre)) samples)) (set_result-append pre z (run s) zeros)
    ∙ subst
        (λ k.
          run_jobs run (jobs_from k samples) (pre ++ run s ∷ zeros)
          ≡ pre ++ run s ∷ map run samples)
        place
        (ap (run_jobs run (jobs_from (length (pre ++ run s ∷ [])) samples))
            (sym (append_assoc pre (run s ∷ []) zeros))
          ∙ rest
          ∙ append_assoc pre (run s ∷ []) (map run samples))

-- The sequential loop.
pub run_jobs_lem :
    {A R : Type 0} (run : A → R) (samples : List A) (zeros : List R)
    → length zeros ≡ length samples
    → run_jobs run (jobs_from 0 samples) zeros ≡ map run samples
run_jobs_lem run samples zeros e = run_jobs-append run [] samples zeros e
