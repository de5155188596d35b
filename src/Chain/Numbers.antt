-- ===== src/Chain/Numbers.antt =====
-- `formatLag` and `stringFromInt` of chain.go.
pub mod RoundTrip
use go_rocketmq_dashboard.Base.{
  ℕ, zero, suc, ◌+◌, ◌/◌, ◌%◌, Bool, List, [], ◌∷◌, ◌++◌, if◌then◌else◌, ltb, ◌==◌, nat_eq,
}
use mathlib.Core.List.{reverse}
use go_rocketmq_dashboard.Base.Int.{ℤ, pos, negsuc, lt_int, neg_int, int_eq}
use go_rocketmq_dashboard.Base.Text.{Text, text}

-- `for value > 0 { … }`, the last digit first. A positive `int64` has at most 19 digits.
unfoldable pub emit_digits : ℕ → ℕ → Text → Text
emit_digits zero value buf = buf
emit_digits (suc fuel) value buf =
    let rest = emit_digits fuel (value / 10) (buf ++ (b'0' + value % 10) ∷ []) in
    if ltb 0 value then rest else buf

-- The loop is not entered for a value that is not positive.
unfoldable pub emit_magnitude : ℤ → Text
unfolding emit_digits
emit_magnitude (pos n) = emit_digits 19 n []
emit_magnitude (negsuc n) = []

unfoldable pub string_from_int : ℤ → Text
unfolding neg_int
string_from_int value =
    if value == pos 0
    then text "0"
    else if lt_int value (pos 0)
    then reverse (emit_magnitude (neg_int value) ++ b'-' ∷ [])
    else reverse (emit_magnitude value)

pub format_lag : ℤ → Text
format_lag lag = if lag == pos 0 then text "0" else string_from_int lag
