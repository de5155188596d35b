-- ===== src/Remoting/Allocation/Partition.antt =====
-- What the clients of one allocation get together.
use go_rocketmq_dashboard.Base.{
  ℕ, suc, ◌+◌, ◌/◌, ◌<◌, ◌≤◌, ◌≡◌, ◌≢◌, ◌∙◌, ◌↔◌, refl, sym, ap, false, List, [], ◌∷◌, ◌++◌,
  append_assoc, map, All, ◌==◌, ==_refl, text_eq, length, length-append, is_nil, take, drop, none,
  some, arith,
}
use go_rocketmq_dashboard.Base.Text.{Text}
use mathlib.Core.Path.{subst}
use native.Mathlib.Decide.{dec_lt}
use native.Mathlib.Nat.{zero-add}
use go_rocketmq_dashboard.Remoting.JavaOrder.{MessageQueueIdentity}
use go_rocketmq_dashboard.Remoting.Allocation.{
  AllocateMqAssignment, index_from, allocate_message_queue_averagely, assign_each,
}
use go_rocketmq_dashboard.Remoting.Allocation.Collect.{
  window_start, share, window_start-suc, window_start_end, window-le, allocate_at_lem,
  take-append-drop, drop_all, length-take-drop, share_bounds, window_start_zero,
  allocate_at_missing,
}

-- No client stands in the list twice.
abbrev pub AreDistinct : List Text → Type 0
AreDistinct [] = Unit
AreDistinct (x ∷ xs) = All (λ y. (x == y) ≡ false) xs × AreDistinct xs

-- The queues of all the assignments, one after the other.
abbrev pub all_queues : List AllocateMqAssignment → List MessageQueueIdentity
all_queues [] = []
all_queues (a ∷ rest) = a.queues ++ all_queues rest

-- Each client of `rest` is found at its place, from `i` on.
abbrev Found : List Text → ℕ → List Text → Type 0
Found cids i [] = Unit
Found cids i (c ∷ rest) = (index_from 0 c cids ≡ some i) × Found cids (suc i) rest

index_from-append :
    (i : ℕ) (pre : List Text) (c : Text) (rest : List Text)
    → All (λ y. (y == c) ≡ false) pre
    → index_from i c (pre ++ c ∷ rest) ≡ some (i + length pre)
unfolding index_from
index_from-append i [] c rest h = rw (==_refl c) (ap some (omega arith))
index_from-append i (p ∷ pre) c rest (h, t) =
    rw h (index_from-append (suc i) pre c rest t ∙ ap some (omega arith))

All-at {ℓ κ} :
    {A : Type ℓ} (P : A → Type κ) (pre : List A) (c : A) (rest : List A)
    → All P (pre ++ c ∷ rest)
    → P c
All-at P [] c rest (h, _) = h
All-at P (p ∷ pre) c rest (_, h) = All-at P pre c rest h

before_differ :
    (pre : List Text) (c : Text) (rest : List Text)
    → AreDistinct (pre ++ c ∷ rest)
    → All (λ y. (y == c) ≡ false) pre
before_differ [] c rest _ = tt
before_differ (p ∷ pre) c rest (h, t) = (All-at _ pre c rest h, before_differ pre c rest t)

each_Found :
    (pre rest : List Text) → AreDistinct (pre ++ rest) → Found (pre ++ rest) (length pre) rest
each_Found pre [] d = tt
each_Found pre (c ∷ rest) d =
    let shift : (pre ++ c ∷ []) ++ rest ≡ pre ++ c ∷ rest = append_assoc pre (c ∷ []) rest in
    let later = each_Found (pre ++ c ∷ []) rest (rw shift d) in
    let place : length (pre ++ c ∷ []) ≡ suc (length pre) =
      omega (arith, length-append pre (c ∷ [])) in
    (
      index_from-append 0 pre c rest (before_differ pre c rest d) ∙ ap some (zero-add (length pre)),
      subst (λ l. Found l (suc (length pre)) rest) shift
          (subst (λ k. Found ((pre ++ c ∷ []) ++ rest) k rest) place later),
    )

is_nil-false {ℓ} : {A : Type ℓ} (l : List A) → 0 < length l → is_nil l ≡ false
is_nil-false [] h = absurd (omega arith)
is_nil-false (x ∷ l) h = refl

nonempty {ℓ} : {A : Type ℓ} (l : List A) → l ≢ [] → 0 < length l
nonempty [] h = elim (h refl) [ ]
nonempty (x ∷ l) h = omega arith

-- A client's share of the queues: the quotient, or one more.
abbrev pub IsFair : ℕ → ℕ → AllocateMqAssignment → Type 0
IsFair n k a = (n / k ≤ length a.queues) × (length a.queues ≤ n / k + 1)

module _ (queues : List MessageQueueIdentity) (ips : List Text) where
  allocate_found :
      (ip : Text) (i : ℕ)
      → index_from 0 ip ips ≡ some i
      → i < length ips
      → length ips ≤ length queues
      → allocate_message_queue_averagely queues ips ip
        ≡ some (
            take
              (share (length queues) (length ips) i)
              (drop (window_start (length queues) (length ips) i) queues))
  unfolding allocate_message_queue_averagely
  allocate_found ip i found inside enough =
      rw (found, allocate_message_queue_averagely)
        (rw (is_nil-false queues (omega arith)) (
          rw (is_nil-false ips (omega arith))
            (allocate_at_lem queues (length ips) i inside enough)))

  own_IsFair :
      (i : ℕ) (c : Text)
      → i < length ips
      → length ips ≤ length queues
      → IsFair (length queues) (length ips) (record {
        ip = c;
        queues =
            take
              (share (length queues) (length ips) i)
              (drop (window_start (length queues) (length ips) i) queues);
      })
  own_IsFair i c inside enough =
      let n = length queues in
      let k = length ips in
      let size =
        length-take-drop (share n k i) (window_start n k i) queues (window-le n k i inside) in
      omega (arith, size, share_bounds n k i)

  assign_each_lem :
      (i : ℕ) (rest : List Text)
      → Found ips i rest
      → i + length rest ≡ length ips
      → length ips ≤ length queues
      → 0 < length ips
      → (result : List AllocateMqAssignment) × (assign_each queues ips rest ≡ some result)
        × (map (λ a. a.ip) result ≡ rest)
        × (all_queues result ≡ drop (window_start (length queues) (length ips) i) queues)
        × All (IsFair (length queues) (length ips)) result
  unfolding assign_each
  assign_each_lem i [] _ e enough some_ip =
      let last : i ≡ length ips = omega arith in
      (
        [],
        refl,
        refl,
        sym (
            ap (λ k. drop k queues)
              (ap (window_start (length queues) (length ips)) last
                ∙ window_start_end (length queues) (length ips) some_ip)
            ∙ drop_all queues),
        tt,
      )
  assign_each_lem i (c ∷ rest) (f, fs) e enough some_ip =
      let n = length queues in
      let k = length ips in
      let inside : i < k = omega arith in
      let own = take (share n k i) (drop (window_start n k i) queues) in
      let others = assign_each_lem (suc i) rest fs (omega arith) enough some_ip in
      (
        record { ip = c; queues = own } ∷ others.0,
        rw (allocate_found c i f inside enough, others.1, assign_each) refl,
        ap (◌∷◌ c) others.2,
        ap (◌++◌ own) (others.3 ∙ ap (λ s. drop s queues) (window_start-suc n k i))
            ∙ take-append-drop (share n k i) (window_start n k i) queues,
        (own_IsFair i c inside enough, others.4),
      )

  -- With distinct clients and no fewer queues than clients, the assignments stand in the order of the
  -- clients, together hold each queue exactly once and in its order, and no two of them differ by
  -- more than one queue: each has the quotient, or one more.
  pub assign_each-IsFair :
      ips ≢ []
      → AreDistinct ips
      → length ips ≤ length queues
      → (result : List AllocateMqAssignment) × (assign_each queues ips ips ≡ some result)
        × (map (λ a. a.ip) result ≡ ips)
        × (all_queues result ≡ queues)
        × All (IsFair (length queues) (length ips)) result
  assign_each-IsFair some_ip d enough =
      let counted = nonempty ips some_ip in
      let all =
        assign_each_lem 0 ips (each_Found [] ips d) (zero-add (length ips)) enough counted in
      (
        all.0,
        all.1,
        all.2,
        all.3 ∙ ap (λ s. drop s queues) (window_start_zero (length queues) (length ips)),
        all.4,
      )

  allocate_missing :
      (ip : Text) (i : ℕ)
      → index_from 0 ip ips ≡ some i
      → i < length ips
      → 0 < length queues
      → length queues ≤ i
      → allocate_message_queue_averagely queues ips ip ≡ none
  unfolding allocate_message_queue_averagely
  allocate_missing ip i found inside some_queue late =
      rw (found, allocate_message_queue_averagely)
        (rw (is_nil-false queues some_queue) (
          rw (is_nil-false ips (omega arith))
            (allocate_at_missing queues (length ips) i inside some_queue late)))

  assign_each_missing :
      (i : ℕ) (rest : List Text)
      → Found ips i rest
      → i + length rest ≡ length ips
      → i ≤ length queues
      → 0 < length queues
      → length queues < length ips
      → assign_each queues ips rest ≡ none
  unfolding assign_each
  assign_each_missing i [] _ e early some_queue few = absurd (omega arith)
  assign_each_missing i (c ∷ rest) (f, fs) e early some_queue few =
      elim (dec_lt i (length queues)) [
        | yes p ↦
            let later =
              assign_each_missing (suc i) rest fs (omega arith) (omega arith) some_queue few in
            ground (arith, later)
        | no p ↦
            rw (allocate_missing c i f (omega arith) some_queue (omega arith), assign_each) refl
      ]

  no_queues : (rest : List Text) → queues ≡ [] → assign_each queues ips rest ≢ none
  unfolding assign_each allocate_message_queue_averagely
  no_queues [] e = ground arith
  no_queues (c ∷ rest) e = ground (arith, no_queues rest)

enough_queues :
    (queues : List MessageQueueIdentity) (ips : List Text)
    → AreDistinct ips
    → length ips ≤ length queues
    → assign_each queues ips ips ≢ none
unfolding assign_each
enough_queues queues [] d h panics = cc
enough_queues queues (ip ∷ ips) d h panics =
    let all = assign_each-IsFair queues (ip ∷ ips) (λ e. cc) d h in cc all.1

-- With distinct clients, the allocation panics exactly when there are queues, but fewer than clients.
pub assign_each_panics_iff :
    (queues : List MessageQueueIdentity) (ips : List Text)
    → AreDistinct ips
    → (assign_each queues ips ips ≡ none) ↔ (queues ≢ [] × (length queues < length ips))
assign_each_panics_iff queues ips d = (
  λ panics. (
    λ e. no_queues queues ips ips e panics,
    elim (dec_lt (length queues) (length ips)) [
      | yes p ↦ p
      | no p ↦ elim (enough_queues queues ips d (omega arith) panics) [ ]
    ],
  ),
  λ h.
      assign_each_missing queues ips 0 ips (each_Found [] ips d) (zero-add (length ips))
        (omega arith) (nonempty queues h.0) h.1,
)
