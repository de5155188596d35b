-- ===== src/Base/Itoa.antt =====
-- `strconv.Itoa`, which is also what `%d` prints. An `int` has at most 19 digits.
use Prim.Native.Nat.{ℕ, zero, suc, ◌+◌, ◌/◌, ◌%◌}
use mathlib.Core.List.{[], ◌∷◌}
use go_rocketmq_dashboard.Base.Equality.{if◌then◌else◌, ltb}
use go_rocketmq_dashboard.Base.Int.{ℤ, pos, negsuc}
use go_rocketmq_dashboard.Base.Text.{Text}

-- The digits of `n` in front of `s`.
unfoldable pub digits : ℕ → ℕ → Text → Text
digits zero n s = s
digits (suc fuel) n s =
    let rest = digits fuel (n / 10) ((b'0' + n % 10) ∷ s) in
    if ltb n 10 then (b'0' + n % 10) ∷ s else rest

unfoldable pub itoa : ℤ → Text
unfolding digits
itoa (pos n) = digits 19 n []
itoa (negsuc n) = b'-' ∷ digits 19 (suc n) []
