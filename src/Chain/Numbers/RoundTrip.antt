-- ===== src/Chain/Numbers/RoundTrip.antt =====
-- Reading back what `stringFromInt` prints.
use mathlib.Core.List.{reverse, reverse-cons, reverse-append}
use native.Mathlib.Nat.{pow-suc}
use go_rocketmq_dashboard.Base.{
  ℕ, zero, suc, ◌+◌, ◌-◌, ◌*◌, ◌/◌, ◌%◌, ◌^◌, ◌≤◌, ◌<◌, ◌≡◌, ◌≢◌, refl, ◌∙◌, [], ◌∷◌, ◌++◌, arith,
  if◌then◌else◌, ltb, ◌==◌, nat_eq, inl, inr, Bool-cases, ==_refl, sym, append-nil, append_assoc,
  All, All-append,
}
use go_rocketmq_dashboard.Base.Int.{ℤ, pos, negsuc, neg_int, int_eq, int64_min, IsInt64, int64_half}
use go_rocketmq_dashboard.Base.Text.{Text}
use go_rocketmq_dashboard.Chain.Numbers.{emit_digits, emit_magnitude, string_from_int}

-- The number that decimal digits spell behind `n`.
pub decimal : ℕ → Text → ℕ
decimal n [] = n
decimal n (c ∷ s) = decimal (n * 10 + (c - b'0')) s

-- A decimal number with an optional minus sign.
pub read_int : Text → ℤ
unfolding decimal
read_int [] = pos 0
read_int (c ∷ s) = if c == b'-' then neg_int (pos (decimal 0 s)) else pos (decimal 0 (c ∷ s))

-- The number that digits spell, the last digit first.
decimal_rev : Text → ℕ
decimal_rev [] = 0
decimal_rev (c ∷ s) = (c - b'0') + 10 * decimal_rev s

decimal-concat :
    (n : ℕ) (s : Text) (c : ℕ) → decimal n (s ++ c ∷ []) ≡ decimal n s * 10 + (c - b'0')
unfolding decimal
decimal-concat n [] c = refl
decimal-concat n (d ∷ s) c = decimal-concat (n * 10 + (d - b'0')) s c

decimal-reverse : (s : Text) → decimal 0 (reverse s) ≡ decimal_rev s
unfolding decimal decimal_rev
decimal-reverse [] = refl
decimal-reverse (c ∷ s) = rw (reverse-cons, decimal-concat, decimal-reverse s) (omega arith)

-- The digits of a number, the last one first.
digits_rev : ℕ → ℕ → Text
digits_rev zero value = []
digits_rev (suc fuel) value =
    let rest = digits_rev fuel (value / 10) in
    if ltb 0 value then (b'0' + value % 10) ∷ rest else []

emit_digits-digits_rev :
    (fuel value : ℕ) (buf : Text) → emit_digits fuel value buf ≡ buf ++ digits_rev fuel value
unfolding emit_digits digits_rev
emit_digits-digits_rev zero value buf = sym (append-nil buf)
emit_digits-digits_rev (suc fuel) value buf = elim (Bool-cases (ltb 0 value)) [
  | inl e ↦ rw e (emit_digits-digits_rev fuel (value / 10) _ ∙ append_assoc buf _ _)
  | inr e ↦ rw e (sym (append-nil buf))
]

tenth_fits : (fuel value : ℕ) → value < 10 ^ suc fuel → value / 10 < 10 ^ fuel
tenth_fits fuel value h = omega (arith, pow-suc 10 fuel)

decimal_rev-digits_rev :
    (fuel value : ℕ) → value < 10 ^ fuel → decimal_rev (digits_rev fuel value) ≡ value
unfolding decimal_rev digits_rev
decimal_rev-digits_rev zero value h = omega arith
decimal_rev-digits_rev (suc fuel) value h =
    ground (arith, decimal_rev-digits_rev fuel (value / 10) (tenth_fits fuel value h))

abbrev AllDigits : Text → Type 0
AllDigits = All (λ c. b'0' ≤ c)

digits_rev-AllDigits : (fuel value : ℕ) → AllDigits (digits_rev fuel value)
unfolding digits_rev
digits_rev-AllDigits zero value = tt
digits_rev-AllDigits (suc fuel) value = elim (Bool-cases (ltb 0 value)) [
  | inl e ↦ rw e (omega arith, digits_rev-AllDigits fuel (value / 10))
  | inr e ↦ rw e tt
]

reverse-AllDigits : (s : Text) → AllDigits s → AllDigits (reverse s)
reverse-AllDigits [] h = tt
reverse-AllDigits (c ∷ s) (h, t) =
    rw reverse-cons (All-append _ (reverse s) (c ∷ []) (reverse-AllDigits s t) (h, tt))

read_int-AllDigits : (s : Text) → AllDigits s → read_int s ≡ pos (decimal 0 s)
unfolding read_int
read_int-AllDigits [] h = refl
read_int-AllDigits (c ∷ s) (h, _) = ground arith

emit_magnitude-digits_rev : (n : ℕ) → emit_magnitude (pos n) ≡ digits_rev 19 n
unfolding emit_magnitude
emit_magnitude-digits_rev n = emit_digits-digits_rev 19 n []

read_int-positive : (n : ℕ) → n < int64_half → read_int (reverse (emit_magnitude (pos n))) ≡ pos n
read_int-positive n h = rw (
  emit_magnitude-digits_rev n,
  read_int-AllDigits _ (reverse-AllDigits _ (digits_rev-AllDigits 19 n)),
  decimal-reverse,
  decimal_rev-digits_rev 19 n (omega arith),
)

read_int-negative :
    (n : ℕ)
    → n < int64_half
    → read_int (reverse (emit_magnitude (pos n) ++ b'-' ∷ [])) ≡ neg_int (pos n)
unfolding read_int
read_int-negative n h = rw (
  emit_magnitude-digits_rev n,
  reverse-append,
  decimal-reverse,
  decimal_rev-digits_rev 19 n (omega arith),
  ==_refl,
)

-- Every `int64` but the minimum is read back from its print.
pub read_int-string_from_int :
    (value : ℤ) → IsInt64 value → value ≢ int64_min → read_int (string_from_int value) ≡ value
unfolding string_from_int neg_int
read_int-string_from_int (pos zero) h ne = unfold read_int int_eq nat_eq in refl
read_int-string_from_int (pos (suc n)) h ne = ground (arith, read_int-positive (suc n) h)
read_int-string_from_int (negsuc n) h ne = ground (arith, read_int-negative (suc n), ne)
