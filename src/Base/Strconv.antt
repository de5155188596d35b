-- ===== src/Base/Strconv.antt =====
-- Package `strconv`: `ParseBool` and `ParseInt` with base 10 and 64 bits; `none` is an error.
use Prim.Native.Nat.{ℕ, zero, suc, ◌+◌, ◌-◌, ◌*◌}
use mathlib.Core.Bool.{Bool, true, false, ◌&&◌}
use mathlib.Core.Option.{Option, none, some}
use mathlib.Core.List.{List, [], ◌∷◌}
use go_rocketmq_dashboard.Base.Equality.{if◌then◌else◌, ltb, leb, ◌==◌, nat_eq, text_eq}
use go_rocketmq_dashboard.Base.Lists.{contains, is_nil}
use go_rocketmq_dashboard.Base.Text.{Text, text}
use go_rocketmq_dashboard.Base.Int.{ℤ, pos, negsuc, int64_half}

abbrev pub true_texts : List Text
true_texts = text "1" ∷ text "t" ∷ text "T" ∷ text "true" ∷ text "TRUE" ∷ text "True" ∷ []

abbrev pub false_texts : List Text
false_texts = text "0" ∷ text "f" ∷ text "F" ∷ text "false" ∷ text "FALSE" ∷ text "False" ∷ []

unfoldable pub parse_bool : Text → Option Bool
parse_bool s =
    if contains true_texts s then some true else if contains false_texts s then some false else none

-- The value of decimal digits, after `value`.
unfoldable pub parse_digits : ℕ → Text → Option ℕ
parse_digits value [] = some value
parse_digits value (c ∷ cs) =
    let rest = parse_digits (value * 10 + (c - b'0')) cs in
    if leb b'0' c && leb c b'9' then rest else none

-- The sign is read; the range of `int64` has one more negative value.
unfoldable pub signed : Bool → Option ℕ → Option ℤ
signed negative none = none
signed true (some zero) = some (pos 0)
signed true (some (suc n)) = if ltb n int64_half then some (negsuc n) else none
signed false (some n) = if ltb n int64_half then some (pos n) else none

unfoldable pub digits_or_error : Text → Option ℕ
unfolding parse_digits
digits_or_error s = if is_nil s then none else parse_digits 0 s

unfoldable pub parse_int : Text → Option ℤ
unfolding signed digits_or_error
parse_int [] = none
parse_int (c ∷ cs) =
    if c == b'-'
    then signed true (digits_or_error cs)
    else if c == b'+'
    then signed false (digits_or_error cs)
    else signed false (digits_or_error (c ∷ cs))

unfoldable pub format_bool : Bool → Text
format_bool true = text "true"
format_bool false = text "false"
