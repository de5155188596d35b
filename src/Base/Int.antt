-- ===== src/Base/Int.antt =====
-- Go's `int64`: an integer with its range as a hypothesis, and negation that wraps at the minimum.
use Prim.Native.Nat.{ℕ, zero, suc, ◌-◌, ◌<◌}
use mathlib.Core.Path.{◌≡◌, refl}
use mathlib.Core.Bool.{Bool, true, false}
use native.Mathlib.Decide.{ℕ_discrete}
use native.Mathlib.Omega.{arith}
use go_rocketmq_dashboard.Base.Equality.{if◌then◌else◌, ltb, leb, Eq, ◌==◌, nat_eq}
use go_rocketmq_dashboard.Base.Sort.{IsWeakOrder}

-- `negsuc n` is -(n + 1).
pub data ℤ : Type 0 where
  pos : ℕ → ℤ
  negsuc : ℕ → ℤ

int_dec : Discrete ℤ
int_dec = hlevel ℕ_discrete

instance unfoldable pub int_eq : Eq ℤ
unfolding int_dec ℕ_discrete
int_eq = record { dec = int_dec }

-- a - b, as an integer.
abbrev pub sub_ℕ : ℕ → ℕ → ℤ
sub_ℕ a b = if leb b a then pos (a - b) else negsuc (b - a - 1)

-- `a < b`
abbrev pub lt_int : ℤ → ℤ → Bool
lt_int (pos a) (pos b) = ltb a b
lt_int (pos a) (negsuc b) = false
lt_int (negsuc a) (pos b) = true
lt_int (negsuc a) (negsuc b) = ltb b a

abbrev pub int64_half : ℕ
int64_half = 0x8000000000000000

abbrev pub int64_min : ℤ
int64_min = negsuc 0x7fffffffffffffff

-- The values of `int64`.
abbrev pub IsInt64 : ℤ → Type 0
IsInt64 (pos n) = n < int64_half
IsInt64 (negsuc n) = n < int64_half

-- `-value` in `int64`: the minimum has no opposite and stays as it is.
unfoldable pub neg_int : ℤ → ℤ
neg_int (pos zero) = pos zero
neg_int (pos (suc n)) = negsuc n
neg_int (negsuc n) = if n == 0x7fffffffffffffff then negsuc n else pos (suc n)

lt_int_asymm : (a b : ℤ) → lt_int a b ≡ true → lt_int b a ≡ false
lt_int_asymm (pos a) (pos b) h = ground arith
lt_int_asymm (pos a) (negsuc b) h = cc
lt_int_asymm (negsuc a) (pos b) h = refl
lt_int_asymm (negsuc a) (negsuc b) h = ground arith

lt_int_trans : (a b c : ℤ) → lt_int b a ≡ false → lt_int c b ≡ false → lt_int c a ≡ false
lt_int_trans (pos a) (pos b) (pos c) h k = ground arith
lt_int_trans (negsuc a) (negsuc b) (negsuc c) h k = ground arith
lt_int_trans _ _ _ h k = ground arith

pub lt_int-IsWeakOrder : IsWeakOrder lt_int
lt_int-IsWeakOrder = record { asymm = lt_int_asymm; trans = lt_int_trans }

-- Neither less nor greater is equal.
pub lt_int_antisymm : (a b : ℤ) → lt_int a b ≡ false → lt_int b a ≡ false → a ≡ b
lt_int_antisymm (pos a) (pos b) h k = ground arith
lt_int_antisymm (negsuc a) (negsuc b) h k = ground arith
lt_int_antisymm _ _ h k = ground arith
