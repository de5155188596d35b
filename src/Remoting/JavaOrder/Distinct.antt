-- ===== src/Remoting/JavaOrder/Distinct.antt =====
-- The list that a `seen` set leaves: the first element of each key.
use go_rocketmq_dashboard.Base.{
  ◌≡◌, if◌then◌else◌, ◌==◌, List, [], ◌∷◌, text_eq, contains, any, count, arith,
}
use go_rocketmq_dashboard.Base.Text.{Text}

module _ {ℓ} {A : Type ℓ} (key : A → Text) where
  -- `if seen[key] { continue }; seen[key] = true; compacted = append(compacted, value)`
  unfoldable pub compacted : List Text → List A → List A
  compacted seen [] = []
  compacted seen (x ∷ xs) =
      let rest = compacted (key x ∷ seen) xs in
      let skipped = compacted seen xs in if contains seen (key x) then skipped else x ∷ rest

  -- Among the elements left, a key that is not yet seen is there once if it is there at all.
  pub count-compacted :
      (k : Text) (seen : List Text) (xs : List A)
      → count (λ x. key x == k) (compacted seen xs)
        ≡ (if contains seen k then 0 else if any (λ x. key x == k) xs then 1 else 0)
  unfolding compacted
  count-compacted k seen [] = ground arith
  count-compacted k seen (x ∷ xs) =
      ground (arith, count-compacted k seen xs, count-compacted k (key x ∷ seen) xs)
