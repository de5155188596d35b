-- ===== src/Base/Sort.antt =====
-- `sort.SliceStable(xs, less)`: a stable sort by a strict weak order. The order of the result is
-- settled by the contract (ascending, and equivalent elements keep their order), so any stable
-- sort stands for it; `sort.Strings` and `sort.Slice` over a total order give the same list.
use Prim.Native.Nat.{suc}
use mathlib.Core.Path.{◌≡◌, refl}
use mathlib.Core.Bool.{Bool, true, false, ◌&&◌, ◌||◌, not}
use mathlib.Core.Logic.{inl, inr}
use mathlib.Core.List.{List, [], ◌∷◌, Perm}
use mathlib.Core.List.Perm
use native.Mathlib.Omega.{arith}
use go_rocketmq_dashboard.Base.Equality.{if◌then◌else◌, Bool-cases}
use go_rocketmq_dashboard.Base.Lists.{All, filter, length, any, count}

-- What `sort` asks of its `less` function.
pub record IsWeakOrder {ℓ} {A : Type ℓ} (less : A → A → Bool) : Type ℓ where
  pub asymm : (a b : A) → less a b ≡ true → less b a ≡ false
  pub trans : (a b c : A) → less b a ≡ false → less c b ≡ false → less c a ≡ false

module _ {ℓ} {A : Type ℓ} (less : A → A → Bool) where
  insert : A → List A → List A
  insert x [] = x ∷ []
  insert x (y ∷ ys) = if less y x then y ∷ insert x ys else x ∷ y ∷ ys

  unfoldable pub sort_stable : List A → List A
  unfolding insert
  sort_stable [] = []
  sort_stable (x ∷ xs) = insert x (sort_stable xs)

  -- No later element is less than an earlier one.
  abbrev pub IsSorted : List A → Type 0
  IsSorted [] = Unit
  IsSorted (x ∷ xs) = All (λ y. less y x ≡ false) xs × IsSorted xs

  insert-perm : (x : A) (l : List A) → Perm (insert x l) (x ∷ l)
  unfolding insert
  insert-perm x [] = Perm.rfl
  insert-perm x (y ∷ ys) = elim (Bool-cases (less y x)) [
    | inl e ↦ rw e (Perm.trans (Perm.cons y (insert-perm x ys)) (Perm.swap x y ys))
    | inr e ↦ rw e Perm.rfl
  ]

  -- Sorting loses and invents nothing.
  pub sort_stable-perm : (l : List A) → Perm (sort_stable l) l
  unfolding sort_stable
  sort_stable-perm [] = Perm.rfl
  sort_stable-perm (x ∷ xs) =
      Perm.trans (insert-perm x (sort_stable xs)) (Perm.cons x (sort_stable-perm xs))

  insert-All {κ} : (P : A → Type κ) (x : A) (l : List A) → P x → All P l → All P (insert x l)
  unfolding insert
  insert-All P x [] px _ = (px, tt)
  insert-All P x (y ∷ ys) px (py, h) = elim (Bool-cases (less y x)) [
    | inl e ↦ rw e (py, insert-All P x ys px h)
    | inr e ↦ rw e (px, (py, h))
  ]

  pub sort_stable-All {κ} : (P : A → Type κ) (l : List A) → All P l → All P (sort_stable l)
  unfolding sort_stable
  sort_stable-All P [] _ = tt
  sort_stable-All P (x ∷ xs) (px, h) = insert-All P x (sort_stable xs) px (sort_stable-All P xs h)

  length-insert : (x : A) (l : List A) → length (insert x l) ≡ suc (length l)
  unfolding insert
  length-insert x [] = refl
  length-insert x (y ∷ ys) = ground (arith, length-insert x ys)

  pub length-sort_stable : (l : List A) → length (sort_stable l) ≡ length l
  unfolding sort_stable
  length-sort_stable [] = refl
  length-sort_stable (x ∷ xs) =
      omega (arith, length-insert x (sort_stable xs), length-sort_stable xs)

  any-insert : (p : A → Bool) (x : A) (l : List A) → any p (insert x l) ≡ (p x || any p l)
  unfolding insert
  any-insert p x [] = refl
  any-insert p x (y ∷ ys) = ground (arith, any-insert p x ys)

  pub any-sort_stable : (p : A → Bool) (l : List A) → any p (sort_stable l) ≡ any p l
  unfolding sort_stable
  any-sort_stable p [] = refl
  any-sort_stable p (x ∷ xs) = rw (any-insert p x (sort_stable xs), any-sort_stable p xs)

  count-insert : (p : A → Bool) (x : A) (l : List A) → count p (insert x l) ≡ count p (x ∷ l)
  unfolding insert
  count-insert p x [] = refl
  count-insert p x (y ∷ ys) = ground (arith, count-insert p x ys)

  pub count-sort_stable : (p : A → Bool) (l : List A) → count p (sort_stable l) ≡ count p l
  unfolding sort_stable
  count-sort_stable p [] = refl
  count-sort_stable p (x ∷ xs) =
      omega (arith, count-insert p x (sort_stable xs), count-sort_stable p xs)

  module _ (w : IsWeakOrder less) where
    All-weaken :
        (x y : A) (l : List A)
        → less y x ≡ false
        → All (λ z. less z y ≡ false) l
        → All (λ z. less z x ≡ false) l
    All-weaken x y [] e _ = tt
    All-weaken x y (z ∷ l) e (h, t) = (w.trans x y z e h, All-weaken x y l e t)

    insert-IsSorted : (x : A) (l : List A) → IsSorted l → IsSorted (insert x l)
    unfolding insert
    insert-IsSorted x [] _ = (tt, tt)
    insert-IsSorted x (y ∷ ys) (h, t) = elim (Bool-cases (less y x)) [
      | inl e ↦
          rw e (insert-All (λ z. less z y ≡ false) x ys (w.asymm y x e) h, insert-IsSorted x ys t)
      | inr e ↦ rw e ((e, All-weaken x y ys e h), (h, t))
    ]

    pub sort_stable-IsSorted : (l : List A) → IsSorted (sort_stable l)
    unfolding sort_stable
    sort_stable-IsSorted [] = tt
    sort_stable-IsSorted (x ∷ xs) = insert-IsSorted x (sort_stable xs) (sort_stable-IsSorted xs)

  insert_of_least : (x : A) (l : List A) → All (λ y. less y x ≡ false) l → insert x l ≡ x ∷ l
  unfolding insert
  insert_of_least x [] _ = refl
  insert_of_least x (y ∷ ys) (h, _) = rw h

  -- Sorting a sorted list changes nothing.
  pub sort_stable_of_IsSorted : (l : List A) → IsSorted l → sort_stable l ≡ l
  unfolding sort_stable
  sort_stable_of_IsSorted [] _ = refl
  sort_stable_of_IsSorted (x ∷ xs) (h, t) =
      rw (sort_stable_of_IsSorted xs t) (insert_of_least x xs h)

  -- Two elements neither of which is less than the other.
  abbrev pub same_rank : A → A → Bool
  same_rank a b = not (less a b) && not (less b a)

  module _ (w : IsWeakOrder less) where
    insert-same_rank :
        (a x : A) (l : List A) → filter (same_rank a) (insert x l) ≡ filter (same_rank a) (x ∷ l)
    unfolding insert
    insert-same_rank a x [] = refl
    insert-same_rank a x (y ∷ ys) = grind (arith, insert-same_rank a x ys, w.trans, w.asymm)

    -- Elements of one rank keep their order.
    pub sort_stable-same_rank :
        (a : A) (l : List A) → filter (same_rank a) (sort_stable l) ≡ filter (same_rank a) l
    unfolding sort_stable
    sort_stable-same_rank a [] = refl
    sort_stable-same_rank a (x ∷ xs) =
        ground (arith, insert-same_rank a x (sort_stable xs), sort_stable-same_rank a xs)
