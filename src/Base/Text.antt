-- ===== src/Base/Text.antt =====
-- Go strings and the parts of package `strings` that the program calls. A string is the list of
-- its code points: UTF-8 keeps their order, so `<` on strings is the lexicographic order here.
use Prim.Native.Char.{code}
use Prim.Native.String.{String}
use Prim.Native.Nat.{ℕ, ◌+◌}
use mathlib.Core.Path.{◌≡◌, refl, ap, ◌∙◌}
use mathlib.Core.Logic.{inl, inr}
use mathlib.Core.Logic.{◌≢◌}
use mathlib.Core.Bool.{Bool, true, false, ◌&&◌, ◌||◌}
use mathlib.Core.Option.{Option, none, some}
use mathlib.Core.List.{List, [], ◌∷◌, ◌++◌, map}
use native.Mathlib.Omega.{arith}
use go_rocketmq_dashboard.Base.Equality.{
  if◌then◌else◌, ltb, leb, ◌==◌, nat_eq, ==_refl, text_eq, Bool-cases,
}
use go_rocketmq_dashboard.Base.Lists.{any, All}
use go_rocketmq_dashboard.Base.Sort.{IsWeakOrder}

abbrev pub Text : Type 0
Text = List ℕ

-- The text of a literal.
abbrev pub text : String → Text
text String.[] = []
text (String.◌∷◌ first rest) = code first ∷ text rest

-- `s < t`
unfoldable pub text_less : Text → Text → Bool
text_less s [] = false
text_less [] (y ∷ t) = true
text_less (x ∷ s) (y ∷ t) = if ltb x y then true else if ltb y x then false else text_less s t

-- `unicode.IsSpace`
unfoldable pub is_space : ℕ → Bool
is_space c =
    (leb 9 c && leb c 13)
    || c == 32
    || c == 0x85
    || c == 0xa0
    || c == 0x1680
    || (leb 0x2000 c && leb c 0x200a)
    || c == 0x2028
    || c == 0x2029
    || c == 0x202f
    || c == 0x205f
    || c == 0x3000

unfoldable pub trim_left : Text → Text
trim_left [] = []
trim_left (c ∷ s) = if is_space c then trim_left s else c ∷ s

unfoldable pub cons_trimmed : ℕ → Text → Text
cons_trimmed c [] = if is_space c then [] else c ∷ []
cons_trimmed c (d ∷ s) = c ∷ d ∷ s

unfoldable pub trim_right : Text → Text
unfolding cons_trimmed
trim_right [] = []
trim_right (c ∷ s) = cons_trimmed c (trim_right s)

-- `strings.TrimSpace`
unfoldable pub trim_space : Text → Text
trim_space s = trim_right (trim_left s)

-- `unicode.ToLower` on ASCII; other letters are left as they are.
unfoldable pub lower : ℕ → ℕ
lower c = if leb b'A' c && leb c b'Z' then c + 32 else c

unfoldable pub to_lower : Text → Text
unfolding lower
to_lower = map lower

-- `strings.HasPrefix`
unfoldable pub has_prefix : Text → Text → Bool
has_prefix s [] = true
has_prefix [] (p ∷ ps) = false
has_prefix (c ∷ s) (p ∷ ps) = c == p && has_prefix s ps

-- The last code point of a text, or the given one.
unfoldable pub last_or : ℕ → Text → ℕ
last_or d [] = d
last_or d (c ∷ s) = last_or c s

-- `strings.ContainsAny`
unfoldable pub contains_any : Text → Text → Bool
contains_any s chars = any (λ c. any (λ d. c == d) chars) s

text_less_asymm : (s t : Text) → text_less s t ≡ true → text_less t s ≡ false
unfolding text_less
text_less_asymm s [] h = cc
text_less_asymm [] (y ∷ t) h = refl
text_less_asymm (x ∷ s) (y ∷ t) h = ground (arith, text_less_asymm s t)

text_less_trans :
    (r s t : Text) → text_less s r ≡ false → text_less t s ≡ false → text_less t r ≡ false
unfolding text_less
text_less_trans [] s t h k = refl
text_less_trans (x ∷ r) [] t h k = cc
text_less_trans (x ∷ r) (y ∷ s) [] h k = cc
text_less_trans (x ∷ r) (y ∷ s) (z ∷ t) h k = ground (arith, text_less_trans r s t)

pub text_less-IsWeakOrder : IsWeakOrder text_less
text_less-IsWeakOrder = record { asymm = text_less_asymm; trans = text_less_trans }

-- The order is total: texts of one rank are equal.
pub text_less_antisymm : (s t : Text) → text_less s t ≡ false → text_less t s ≡ false → s ≡ t
unfolding text_less
text_less_antisymm [] [] h k = refl
text_less_antisymm [] (y ∷ t) h k = cc
text_less_antisymm (x ∷ s) [] h k = cc
text_less_antisymm (x ∷ s) (y ∷ t) h k = ground (arith, text_less_antisymm s t)

-- A text that does not begin with a space.
abbrev StartsSolid : Text → Type 0
StartsSolid [] = Unit
StartsSolid (c ∷ s) = is_space c ≡ false

trim_left-StartsSolid : (s : Text) → StartsSolid (trim_left s)
unfolding trim_left
trim_left-StartsSolid [] = tt
trim_left-StartsSolid (c ∷ s) = elim (Bool-cases (is_space c)) [
  | inl e ↦ rw e (trim_left-StartsSolid s)
  | inr e ↦ rw e e
]

trim_left_of_StartsSolid : (s : Text) → StartsSolid s → trim_left s ≡ s
unfolding trim_left
trim_left_of_StartsSolid [] _ = refl
trim_left_of_StartsSolid (c ∷ s) h = rw h

cons_trimmed-StartsSolid : (c : ℕ) (s : Text) → is_space c ≡ false → StartsSolid (cons_trimmed c s)
unfolding cons_trimmed
cons_trimmed-StartsSolid c [] h = rw h h
cons_trimmed-StartsSolid c (d ∷ s) h = h

trim_right-StartsSolid : (s : Text) → StartsSolid s → StartsSolid (trim_right s)
unfolding trim_right
trim_right-StartsSolid [] h = tt
trim_right-StartsSolid (c ∷ s) h = cons_trimmed-StartsSolid c (trim_right s) h

trim_right-cons_trimmed :
    (c : ℕ) (s : Text) → trim_right s ≡ s → trim_right (cons_trimmed c s) ≡ cons_trimmed c s
unfolding trim_right cons_trimmed
trim_right-cons_trimmed c [] h = elim (Bool-cases (is_space c)) [
  | inl e ↦ rw e
  | inr e ↦ rw e (rw e)
]
trim_right-cons_trimmed c (d ∷ s) h = rw h

trim_right_idem : (s : Text) → trim_right (trim_right s) ≡ trim_right s
unfolding trim_right
trim_right_idem [] = refl
trim_right_idem (c ∷ s) = trim_right-cons_trimmed c (trim_right s) (trim_right_idem s)

-- Trimming twice is trimming once.
pub trim_space_idem : (s : Text) → trim_space (trim_space s) ≡ trim_space s
unfolding trim_space
trim_space_idem s =
    ap trim_right (
      trim_left_of_StartsSolid (trim_right (trim_left s))
        (trim_right-StartsSolid (trim_left s) (trim_left-StartsSolid s)))
    ∙ trim_right_idem (trim_left s)

cons_trimmed-ne-nil : (c : ℕ) (s : Text) → s ≢ [] → cons_trimmed c s ≡ c ∷ s
unfolding cons_trimmed
cons_trimmed-ne-nil c [] h = absurd (h refl)
cons_trimmed-ne-nil c (d ∷ s) h = refl

append-ne-nil : (s t : Text) → t ≢ [] → s ++ t ≢ []
append-ne-nil [] t h = h
append-ne-nil (c ∷ s) t h = λ e. cc

-- A text that ends in a trimmed one is trimmed at its end.
pub trim_right-append : (s t : Text) → t ≢ [] → trim_right t ≡ t → trim_right (s ++ t) ≡ s ++ t
unfolding trim_right
trim_right-append [] t h e = e
trim_right-append (c ∷ s) t h e =
    rw (trim_right-append s t h e) (cons_trimmed-ne-nil c (s ++ t) (append-ne-nil s t h))

pub trim_right-trim_space : (s : Text) → trim_right (trim_space s) ≡ trim_space s
unfolding trim_space
trim_right-trim_space s = trim_right_idem (trim_left s)

unfoldable pub cons_head : ℕ → List Text → List Text
cons_head c [] = (c ∷ []) ∷ []
cons_head c (part ∷ parts) = (c ∷ part) ∷ parts

-- `strings.Split` by a separator of one code point
unfoldable pub split_on : ℕ → Text → List Text
unfolding cons_head
split_on sep [] = [] ∷ []
split_on sep (c ∷ s) = let rest = split_on sep s in if c == sep then [] ∷ rest else cons_head c rest

-- No code point of the text is the separator.
abbrev pub Lacks : ℕ → Text → Type 0
Lacks sep = All (λ c. (c == sep) ≡ false)

-- A part in front of a separator is split off.
pub split_on-append :
    (sep : ℕ) (part rest : Text)
    → Lacks sep part
    → split_on sep (part ++ sep ∷ rest) ≡ part ∷ split_on sep rest
unfolding split_on
split_on-append sep [] rest h = rw (==_refl sep)
split_on-append sep (c ∷ part) rest (h, t) = rw (h, split_on-append sep part rest t)

pub split_on-Lacks : (sep : ℕ) (part : Text) → Lacks sep part → split_on sep part ≡ part ∷ []
unfolding split_on
split_on-Lacks sep [] h = refl
split_on-Lacks sep (c ∷ part) (h, t) = rw (h, split_on-Lacks sep part t)

-- `strings.Cut` at the first such code point: the parts before and after it.
unfoldable pub cut_at : ℕ → Text → Option (Text × Text)
cut_at sep [] = none
cut_at sep (c ∷ s) =
    let rest = cut_at sep s in
    if c == sep then some ([], s) else elim rest [ none ↦ none | some p ↦ some (c ∷ p.0, p.1) ]

pub cut_at-append : (sep : ℕ) (s t : Text) → Lacks sep s → cut_at sep (s ++ sep ∷ t) ≡ some (s, t)
unfolding cut_at
cut_at-append sep [] t h = rw (==_refl sep) refl
cut_at-append sep (c ∷ s) t (h, hs) = rw (h, cut_at-append sep s t hs) refl

-- `strings.HasSuffix`
unfoldable pub ends_with : Text → Text → Bool
ends_with [] suffix = [] == suffix
ends_with (c ∷ s) suffix = (c ∷ s) == suffix || ends_with s suffix

-- `len(s)`: the bytes of the UTF-8 encoding.
unfoldable pub byte_length : Text → ℕ
byte_length [] = 0
byte_length (c ∷ s) =
    (if ltb c 0x80 then 1 else if ltb c 0x800 then 2 else if ltb c 0x10000 then 3 else 4)
    + byte_length s
