-- ===== src/Remoting/Frame/Slices.antt =====
-- Parts of lists of bytes, and slices of a payload.
use go_rocketmq_dashboard.Base.{
  ℕ, zero, suc, ◌+◌, ◌≤◌, ◌≡◌, ◌≢◌, refl, ap, true, false, Bool-cases, inl, inr, ltb, nat_eq, List,
  [], ◌∷◌, ◌++◌, take, drop, length, length-append, none, some, ◌-◌, arith,
}
use go_rocketmq_dashboard.Remoting.Frame.Header.{Bytes}
use go_rocketmq_dashboard.Remoting.Frame.{slice_between, payload_body}

pub not_less : (a b : ℕ) → b ≤ a → ltb a b ≡ false
not_less a b h = ground arith

pub take_prefix {ℓ} : {A : Type ℓ} (xs ys : List A) → take (length xs) (xs ++ ys) ≡ xs
take_prefix [] ys = refl
take_prefix (x ∷ xs) ys = ap (◌∷◌ x) (take_prefix xs ys)

pub drop_prefix {ℓ} : {A : Type ℓ} (xs ys : List A) → drop (length xs) (xs ++ ys) ≡ ys
drop_prefix [] ys = refl
drop_prefix (x ∷ xs) ys = drop_prefix xs ys

take_all {ℓ} : {A : Type ℓ} (xs : List A) → take (length xs) xs ≡ xs
take_all [] = refl
take_all (x ∷ xs) = ap (◌∷◌ x) (take_all xs)

pub slice_middle :
    (xs ys zs : Bytes)
    → slice_between (length xs) (length xs + length ys) (xs ++ (ys ++ zs)) ≡ some ys
unfolding slice_between
slice_middle xs ys zs =
    let inside : length xs + length ys ≤ length (xs ++ (ys ++ zs)) =
      omega (arith, length-append xs (ys ++ zs), length-append ys zs) in
    let width : length xs + length ys - length xs ≡ length ys = omega arith in
    rw
      (
        not_less (length xs + length ys) (length xs) (omega arith),
        not_less (length (xs ++ (ys ++ zs))) (length xs + length ys) inside,
        width,
        drop_prefix xs (ys ++ zs),
        take_prefix ys zs,
      )
      refl

slice_suffix : (xs ys : Bytes) → slice_between (length xs) (length (xs ++ ys)) (xs ++ ys) ≡ some ys
unfolding slice_between
slice_suffix xs ys =
    let width : length (xs ++ ys) - length xs ≡ length ys = omega (arith, length-append xs ys) in
    rw
      (
        not_less (length (xs ++ ys)) (length xs) (omega (arith, length-append xs ys)),
        not_less (length (xs ++ ys)) (length (xs ++ ys)) (omega arith),
        width,
        drop_prefix xs ys,
        take_all ys,
      )
      refl

pub payload_body_lem : (xs body : Bytes) → payload_body (length xs) (xs ++ body) ≡ some body
unfolding payload_body
payload_body_lem xs [] =
    rw (not_less (length xs) (length (xs ++ [])) (omega (arith, length-append xs []))) refl
payload_body_lem xs (b ∷ body) =
    let longer : ltb (length xs) (length (xs ++ b ∷ body)) ≡ true =
      ground (arith, length-append xs (b ∷ body)) in
    rw longer (slice_suffix xs (b ∷ body))

pub slice_between_total :
    (low high : ℕ) (bytes : Bytes)
    → low ≤ high
    → high ≤ length bytes
    → slice_between low high bytes ≢ none
unfolding slice_between
slice_between_total low high bytes h l =
    rw (not_less high low h, not_less (length bytes) high l) (λ e. cc)

pub payload_body_total : (header_end : ℕ) (payload : Bytes) → payload_body header_end payload ≢ none
unfolding payload_body
payload_body_total header_end payload = elim (Bool-cases (ltb header_end (length payload))) [
  | inl more ↦
      rw more (slice_between_total header_end (length payload) payload (ground arith) (omega arith))
  | inr ends ↦ rw ends (λ e. cc)
]

pub length-take : (n : ℕ) (input : Bytes) → n ≤ length input → length (take n input) ≡ n
length-take zero input h = refl
length-take (suc n) [] h = absurd (omega arith)
length-take (suc n) (b ∷ input) h = ap suc (length-take n input (omega arith))
