-- ===== src/Remoting/Allocation/Collect.antt =====
-- The window of queues that one client gets.
use go_rocketmq_dashboard.Base.{
  ℕ, zero, suc, ◌+◌, ◌*◌, ◌/◌, ◌%◌, ◌<◌, ◌≤◌, ◌≡◌, ◌∙◌, refl, sym, ap, List, [], ◌∷◌, ◌++◌,
  if◌then◌else◌, ltb, length, get_elem?, take, drop, none, some, arith,
}
use go_rocketmq_dashboard.Base.Int.{ℤ, pos, sub_ℕ, lt_int}
use go_rocketmq_dashboard.Remoting.JavaOrder.{MessageQueueIdentity}
use go_rocketmq_dashboard.Remoting.Allocation.{
  collect, average_size, start_index, with_capacity, allocate_at,
}
use native.Mathlib.Nat.{zero-add, mul-suc, mod-eq_of_lt, div-add-mod, mod-lt, mul-le-mul_right}

get_elem-drop {ℓ} :
    {A : Type ℓ} (l : List A) (i : ℕ)
    → i < length l
    → (x : A) × (get_elem? l i ≡ some x) × (drop i l ≡ x ∷ drop (suc i) l)
get_elem-drop [] i h = absurd (omega arith)
get_elem-drop (x ∷ l) zero h = (x, refl, refl)
get_elem-drop (x ∷ l) (suc i) h = get_elem-drop l i (omega arith)

-- Inside the list, the indices do not wrap around.
pub collect_lem :
    (l : List MessageQueueIdentity) (i rounds : ℕ)
    → i + rounds ≤ length l
    → collect l i rounds ≡ some (take rounds (drop i l))
unfolding collect
collect_lem l i zero h = refl
collect_lem l i (suc rounds) h =
    let here = get_elem-drop l i (omega arith) in
    let rest = collect_lem l (suc i) rounds (omega arith) in
    let same : i % length l ≡ i = mod-eq_of_lt (omega arith) in
    rw (same, collect, here.1, rest, here.2) refl

take-drop {ℓ} : {A : Type ℓ} (c : ℕ) (l : List A) → take c l ++ drop c l ≡ l
take-drop zero l = refl
take-drop (suc c) [] = refl
take-drop (suc c) (x ∷ l) = ap (◌∷◌ x) (take-drop c l)

drop-nil {ℓ} : {A : Type ℓ} (c : ℕ) → drop {A = A} c [] ≡ []
drop-nil zero = refl
drop-nil (suc c) = refl

drop-drop {ℓ} : {A : Type ℓ} (c i : ℕ) (l : List A) → drop c (drop i l) ≡ drop (i + c) l
drop-drop c zero l = rw (zero-add c) refl
drop-drop c (suc i) [] = drop-nil c ∙ sym (drop-nil (suc i + c))
drop-drop c (suc i) (x ∷ l) =
    drop-drop c i l ∙ ap (λ k. drop k (x ∷ l)) (let e : suc (i + c) ≡ suc i + c = omega arith in e)

pub take-append-drop {ℓ} :
    {A : Type ℓ} (c i : ℕ) (l : List A) → take c (drop i l) ++ drop (i + c) l ≡ drop i l
take-append-drop c i l = rw (← drop-drop c i l) (take-drop c (drop i l))

pub drop_all {ℓ} : {A : Type ℓ} (l : List A) → drop (length l) l ≡ []
drop_all [] = refl
drop_all (x ∷ l) = drop_all l

pub length-take-drop {ℓ} :
    {A : Type ℓ} (c i : ℕ) (l : List A) → i + c ≤ length l → length (take c (drop i l)) ≡ c
length-take-drop zero i l h = refl
length-take-drop (suc c) zero [] h = absurd (omega arith)
length-take-drop (suc c) zero (x ∷ l) h = ap suc (length-take-drop c zero l (omega arith))
length-take-drop (suc c) (suc i) [] h = absurd (omega arith)
length-take-drop (suc c) (suc i) (x ∷ l) h = length-take-drop (suc c) i l (omega arith)

-- The first queue of client `i`, and the number of them, when there are enough for all.
pub window_start : ℕ → ℕ → ℕ → ℕ
window_start n k i = i * (n / k) + (if ltb i (n % k) then i else n % k)

pub share : ℕ → ℕ → ℕ → ℕ
share n k i = n / k + (if ltb i (n % k) then 1 else 0)

pub share_bounds : (n k i : ℕ) → (n / k ≤ share n k i) × (share n k i ≤ n / k + 1)
unfolding share
share_bounds n k i = ground arith

pub window_start_zero : (n k : ℕ) → window_start n k 0 ≡ 0
unfolding window_start
window_start_zero n k = ground arith

pub window_start-suc : (n k i : ℕ) → window_start n k (suc i) ≡ window_start n k i + share n k i
unfolding window_start share
window_start-suc n k i = ground arith

pub window_start_end : (n k : ℕ) → 0 < k → window_start n k k ≡ n
unfolding window_start
window_start_end n k h = ground (arith, div-add-mod n k, mod-lt n h)

pub window-le : (n k i : ℕ) → i < k → window_start n k i + share n k i ≤ n
unfolding window_start share
window-le n k i h =
    let products : suc i * (n / k) ≤ k * (n / k) = mul-le-mul_right (n / k) (omega arith) in
    ground (arith, div-add-mod n k)

average_size_lem : (n k i : ℕ) → 0 < k → k ≤ n → average_size n k i ≡ share n k i
unfolding average_size share
average_size_lem n k i h e = grind arith

start_index_lem : (n k i : ℕ) → 0 < k → k ≤ n → start_index n k i ≡ window_start n k i
unfolding start_index window_start
start_index_lem n k i h e =
    rw (average_size_lem n k i h e) (unfold share in ground (arith, mul-suc i (n / k)))

abbrev window_count : ℕ → ℕ → ℕ → ℤ
window_count n start size = if lt_int (sub_ℕ n start) (pos size) then sub_ℕ n start else pos size

enough : (n start size : ℕ) → start + size ≤ n → window_count n start size ≡ pos size
enough n start size h = ground arith

-- With no fewer queues than clients, a client gets the queues of its window.
pub allocate_at_lem :
    (l : List MessageQueueIdentity) (k i : ℕ)
    → i < k
    → k ≤ length l
    → allocate_at l k i ≡ some (take (share (length l) k i) (drop (window_start (length l) k i) l))
unfolding allocate_at with_capacity
allocate_at_lem l k i h e =
    rw
      (
        average_size_lem (length l) k i (omega arith) e,
        start_index_lem (length l) k i (omega arith) e,
      )
      (rw
        (enough (length l) (window_start (length l) k i) (share (length l) k i)
          (window-le (length l) k i h))
        (collect_lem l (window_start (length l) k i) (share (length l) k i)
          (window-le (length l) k i h)))

-- With fewer queues than clients, a client whose index is past the queues starts past their end.
pub allocate_at_missing :
    (l : List MessageQueueIdentity) (k i : ℕ)
    → i < k
    → 0 < length l
    → length l ≤ i
    → allocate_at l k i ≡ none
unfolding allocate_at with_capacity start_index average_size
allocate_at_missing l k i h some_queue late =
    let rest : length l % k ≡ length l = mod-eq_of_lt (omega arith) in ground arith
