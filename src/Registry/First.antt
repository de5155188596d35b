-- ===== src/Registry/First.antt =====
-- A slice in which the first element of a key is replaced, or cut out: the loops over an index that
-- `updateCluster` and `deleteCluster` of cluster_registry.go share.
use go_rocketmq_dashboard.Base.{
  ℕ, ◌+◌, ◌≤◌, ◌<◌, Bool, false, List, [], ◌∷◌, if◌then◌else◌, ◌==◌, text_eq, count, All, arith,
  ◌≡◌, inl, inr, Bool-cases,
}
use go_rocketmq_dashboard.Base.Sort.{IsSorted}
use go_rocketmq_dashboard.Base.Text.{Text}

module _ {A : Type 0} (key : A → Text) where
  unfoldable pub replace_first : Text → A → List A → List A
  replace_first id new [] = []
  replace_first id new (x ∷ xs) = if key x == id then new ∷ xs else x ∷ replace_first id new xs

  unfoldable pub remove_first : Text → List A → List A
  remove_first id [] = []
  remove_first id (x ∷ xs) = if key x == id then xs else x ∷ remove_first id xs

  -- How many elements have the key.
  abbrev pub count_key : Text → List A → ℕ
  count_key id = count (λ x. key x == id)

  pub count-replace_first :
      (id k : Text) (new : A) (xs : List A)
      → 0 < count_key id xs
      → count_key k (replace_first id new xs) + (if id == k then 1 else 0)
        ≡ count_key k xs + (if key new == k then 1 else 0)
  unfolding replace_first
  count-replace_first id k new [] h = absurd (omega arith)
  count-replace_first id k new (x ∷ xs) h = ground (arith, count-replace_first id k new xs)

  pub count-remove_first :
      (id k : Text) (xs : List A)
      → 0 < count_key id xs
      → count_key k (remove_first id xs) + (if id == k then 1 else 0) ≡ count_key k xs
  unfolding remove_first
  count-remove_first id k [] h = absurd (omega arith)
  count-remove_first id k (x ∷ xs) h = ground (arith, count-remove_first id k xs)

  module _ {κ μ} (P : A → Type κ) (Q : A → Type μ) (id : Text)
      (other : (x : A) → (key x == id) ≡ false → P x → Q x) where
    pub All-others : (xs : List A) → count_key id xs ≡ 0 → All P xs → All Q xs
    All-others [] h _ = tt
    All-others (x ∷ xs) h (p, ps) = (other x (ground arith) p, All-others xs (ground arith) ps)

    pub All-replace_first :
        (new : A) (xs : List A)
        → count_key id xs ≤ 1
        → Q new
        → All P xs
        → All Q (replace_first id new xs)
    unfolding replace_first
    All-replace_first new [] h q _ = tt
    All-replace_first new (x ∷ xs) h q (p, ps) = elim (Bool-cases (key x == id)) [
      | inl e ↦ rw e (q, All-others xs (ground arith) ps)
      | inr e ↦ rw e (other x e p, All-replace_first new xs (ground arith) q ps)
    ]

    pub All-remove_first :
        (xs : List A) → count_key id xs ≤ 1 → All P xs → All Q (remove_first id xs)
    unfolding remove_first
    All-remove_first [] h _ = tt
    All-remove_first (x ∷ xs) h (p, ps) = elim (Bool-cases (key x == id)) [
      | inl e ↦ rw e (All-others xs (ground arith) ps)
      | inr e ↦ rw e (other x e p, All-remove_first xs (ground arith) ps)
    ]

  remove_first-All {κ} :
      (P : A → Type κ) (id : Text) (xs : List A) → All P xs → All P (remove_first id xs)
  unfolding remove_first
  remove_first-All P id [] _ = tt
  remove_first-All P id (x ∷ xs) (p, ps) = elim (Bool-cases (key x == id)) [
    | inl e ↦ rw e ps
    | inr e ↦ rw e (p, remove_first-All P id xs ps)
  ]

  pub remove_first-IsSorted :
      (less : A → A → Bool) (id : Text) (xs : List A)
      → IsSorted less xs
      → IsSorted less (remove_first id xs)
  unfolding remove_first
  remove_first-IsSorted less id [] _ = tt
  remove_first-IsSorted less id (x ∷ xs) (p, ps) = elim (Bool-cases (key x == id)) [
    | inl e ↦ rw e ps
    | inr e ↦
        rw e (remove_first-All (λ y. less y x ≡ false) id xs p, remove_first-IsSorted less id xs ps)
  ]
