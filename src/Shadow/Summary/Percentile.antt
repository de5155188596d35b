-- ===== src/Shadow/Summary/Percentile.antt =====
-- `shadowP95Duration` is the nearest-rank percentile.
use go_rocketmq_dashboard.Base.{
  ℕ, zero, suc, ◌+◌, ◌-◌, ◌*◌, ◌<◌, ◌≤◌, ◌≡◌, ◌≢◌, refl, false, some, List, [], ◌∷◌, ltb, leb,
  nat_eq, length, get_elem?, All, count, arith,
}
use go_rocketmq_dashboard.Base.Sort.{
  IsWeakOrder, IsSorted, sort_stable, sort_stable-IsSorted, count-sort_stable, length-sort_stable,
}
use go_rocketmq_dashboard.Shadow.Summary.{p95_index, elem_or_zero, shadow_p95_duration}

ltb-IsWeakOrder : IsWeakOrder ltb
ltb-IsWeakOrder = record { asymm = λ a b h. ground arith; trans = λ a b c h k. ground arith }

elem-not_less :
    (l : List ℕ) (i x y : ℕ)
    → All (λ z. ltb z y ≡ false) l
    → get_elem? l i ≡ some x
    → ltb x y ≡ false
elem-not_less [] i x y a h = cc
elem-not_less (z ∷ l) zero x y (a, _) h = ground arith
elem-not_less (z ∷ l) (suc i) x y (_, a) h = elem-not_less l i x y a h

none_less :
    (l : List ℕ) (x y : ℕ) → y ≡ x → All (λ z. ltb z y ≡ false) l → count (λ d. ltb d x) l ≡ 0
none_less [] x y e a = refl
none_less (z ∷ l) x y e (h, a) = ground (arith, none_less l x y e a)

-- At position i of a sorted list, at least i + 1 elements are at most the one that stands there.
count_at_most :
    (l : List ℕ) (i x : ℕ)
    → IsSorted ltb l
    → get_elem? l i ≡ some x
    → suc i ≤ count (λ d. leb d x) l
count_at_most [] i x s h = cc
count_at_most (z ∷ l) zero x (a, s) h = ground arith
count_at_most (z ∷ l) (suc i) x (a, s) h =
    ground (arith, elem-not_less l i x z a h, count_at_most l i x s h)

-- At position i of a sorted list, at most i elements are less than the one that stands there.
count_below :
    (l : List ℕ) (i x : ℕ) → IsSorted ltb l → get_elem? l i ≡ some x → count (λ d. ltb d x) l ≤ i
count_below [] i x s h = cc
count_below (z ∷ l) zero x (a, s) h =
    let same : z ≡ x = ground arith in ground (arith, none_less l x z same a)
count_below (z ∷ l) (suc i) x (a, s) h = ground (arith, count_below l i x s h)

elem_in_range :
    (l : List ℕ) (i : ℕ) → i < length l → get_elem? l i ≡ some (elem_or_zero (get_elem? l i))
unfolding elem_or_zero
elem_in_range [] i h = ground arith
elem_in_range (z ∷ l) zero h = refl
elem_in_range (z ∷ l) (suc i) h = elem_in_range l i (omega arith)

-- The index of the percentile: the least number of elements that is at least 95 in a hundred.
p95_index_lem :
    (n : ℕ)
    → 0 < n
    → (0 < p95_index n)
      × (p95_index n ≤ n)
      × (95 * n ≤ 100 * p95_index n)
      × (100 * p95_index n < 95 * n + 100)
unfolding p95_index
p95_index_lem n h = ground arith

-- The percentile of a list that is not empty is an element at a position that is in range; at least
-- 95 in a hundred of the durations are at most the percentile, and fewer are below it.
pub shadow_p95_duration-nearest_rank :
    (durations : List ℕ)
    → durations ≢ []
    → (get_elem? (sort_stable ltb durations) (p95_index (length durations) - 1)
        ≡ some (shadow_p95_duration durations))
      × (95 * length durations ≤ 100 * count (λ d. leb d (shadow_p95_duration durations)) durations)
      × (100 * count (λ d. ltb d (shadow_p95_duration durations)) durations < 95 * length durations)
unfolding shadow_p95_duration
shadow_p95_duration-nearest_rank [] h = elim (h refl) [ ]
shadow_p95_duration-nearest_rank (d ∷ ds) h =
    let durations = d ∷ ds in
    let sorted = sort_stable ltb durations in
    let index = p95_index_lem (length durations) (omega arith) in
    let x = elem_or_zero (get_elem? sorted (p95_index (length durations) - 1)) in
    let found =
      elem_in_range sorted (p95_index (length durations) - 1)
        (omega (arith, length-sort_stable ltb durations, index.0, index.1)) in
    let s = sort_stable-IsSorted ltb ltb-IsWeakOrder durations in
    let above = count_at_most sorted (p95_index (length durations) - 1) x s found in
    let below = count_below sorted (p95_index (length durations) - 1) x s found in
    (
      found,
      omega (arith, above, index.0, index.2, count-sort_stable ltb (λ e. leb e x) durations),
      omega (arith, below, index.0, index.3, count-sort_stable ltb (λ e. ltb e x) durations),
    )
