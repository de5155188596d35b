-- ===== src/Remoting/JavaOrder/Capacity.antt =====
-- The capacity of a Java `HashMap` that holds `size` entries: doubled from its start until three
-- quarters of it reach the size.
use native.Mathlib.Nat.{pow-suc, mul_assoc, mul_comm}
use mathlib.Core.Path.{subst}
use go_rocketmq_dashboard.Base.{
  ◌-◌, ◌⊎◌, refl, sym, ℕ, zero, suc, ◌+◌, ◌*◌, ◌/◌, ◌^◌, ◌<◌, ◌≤◌, ◌≡◌, ◌∙◌, if◌then◌else◌, ltb,
  Bool-cases, inl, inr, arith,
}

-- `for size > threshold { capacity *= 2; threshold = capacity * 3 / 4 }`, with fuel.
unfoldable pub grow_capacity : ℕ → ℕ → ℕ → ℕ
grow_capacity zero size capacity = capacity
grow_capacity (suc fuel) size capacity =
    let grown = grow_capacity fuel size (capacity * 2) in
    if ltb (capacity * 3 / 4) size then grown else capacity

-- A round adds at least one to the threshold, so `size` rounds are enough.
unfoldable pub java_hash_map_capacity : ℕ → ℕ
unfolding grow_capacity
java_hash_map_capacity size = grow_capacity size size 16

unfoldable pub java_decoded_hash_map_capacity : ℕ → ℕ
unfolding grow_capacity
java_decoded_hash_map_capacity size = grow_capacity size size 8

grow_capacity_ends :
    (fuel size capacity : ℕ)
    → size ≤ fuel + capacity * 3 / 4
    → 2 ≤ capacity
    → size ≤ grow_capacity fuel size capacity * 3 / 4
unfolding grow_capacity
grow_capacity_ends zero size capacity h two = omega arith
grow_capacity_ends (suc fuel) size capacity h two =
    elim (Bool-cases (ltb (capacity * 3 / 4) size)) [
      | inl more ↦ rw more (grow_capacity_ends fuel size (capacity * 2) (omega arith) (omega arith))
      | inr done ↦ rw done (ground arith)
    ]

-- The number of rounds that the loop makes.
rounds : ℕ → ℕ → ℕ → ℕ
rounds zero size capacity = 0
rounds (suc fuel) size capacity =
    let more = rounds fuel size (capacity * 2) in
    if ltb (capacity * 3 / 4) size then suc more else 0

double_pow : (c k : ℕ) → c * 2 * 2 ^ k ≡ c * 2 ^ suc k
double_pow c k = rw (pow-suc 2 k, mul_assoc c 2 (2 ^ k), mul_comm 2 (2 ^ k))

-- The loop doubles the capacity as often as `rounds` says, and was below the size before each time.
grow_capacity-rounds :
    (fuel size capacity : ℕ)
    → grow_capacity fuel size capacity ≡ capacity * 2 ^ rounds fuel size capacity
unfolding grow_capacity rounds
grow_capacity-rounds zero size capacity = omega arith
grow_capacity-rounds (suc fuel) size capacity = elim (Bool-cases (ltb (capacity * 3 / 4) size)) [
  | inl more ↦ rw more (
      grow_capacity-rounds fuel size (capacity * 2)
      ∙ double_pow capacity (rounds fuel size (capacity * 2)))
  | inr done ↦ rw done (omega arith)
]

rounds_needed :
    (fuel size capacity j : ℕ) → j < rounds fuel size capacity → capacity * 2 ^ j * 3 / 4 < size
unfolding rounds
rounds_needed zero size capacity j h = absurd (omega arith)
rounds_needed (suc fuel) size capacity zero h = ground arith
rounds_needed (suc fuel) size capacity (suc j) h =
    rw (← double_pow capacity j) (rounds_needed fuel size (capacity * 2) j (ground arith))

needed_before :
    (size k : ℕ)
    → ((j : ℕ) → j < k → 16 * 2 ^ j * 3 / 4 < size)
    → (k ≡ 0) ⊎ (16 * 2 ^ (k - 1) * 3 / 4 < size)
needed_before size zero h = inl refl
needed_before size (suc k) h =
    let before : suc k - 1 ≡ k = omega arith in
    inr (subst (λ j. 16 * 2 ^ j * 3 / 4 < size) (sym before) (h k (omega arith)))

-- The loop ends by its test: the capacity is the first of 16, 32, 64, ... three quarters of which
-- reach the size. It is 16 doubled k times, reaches the size, and with one doubling less it would not.
pub java_hash_map_capacity_ends :
    (size : ℕ)
    → (k : ℕ) × (java_hash_map_capacity size ≡ 16 * 2 ^ k)
      × (size ≤ java_hash_map_capacity size * 3 / 4)
      × ((k ≡ 0) ⊎ (16 * 2 ^ (k - 1) * 3 / 4 < size))
unfolding java_hash_map_capacity
java_hash_map_capacity_ends size = (
  rounds size size 16,
  grow_capacity-rounds size size 16,
  grow_capacity_ends size size 16 (omega arith) (omega arith),
  needed_before size (rounds size size 16) (λ j h. rounds_needed size size 16 j h),
)
