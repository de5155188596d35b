-- ===== src/Shadow/Compare/Files.antt =====
-- Two maps of files that have the same files.
use mathlib.Core.Path.{subst}
use go_rocketmq_dashboard.Base.{
  suc, ◌≡◌, ◌≢◌, ◌∙◌, refl, sym, ap, false, Bool-cases, inl, inr, none, some, [], ◌∷◌, ◌==◌, ==→≡,
  ==_refl, if◌then◌else◌, nat_eq, text_eq, length, arith, All,
}
use go_rocketmq_dashboard.Base.Dict.{Dict, lookup}
use go_rocketmq_dashboard.Base.Text.{Text}

-- Every file of the one is a file of the other with the same content.
abbrev pub SameFiles : Dict Text Text → Dict Text Text → Type 0
SameFiles left right = (name : Text) → lookup name left ≡ lookup name right

-- Each name stands once, as in every Go map.
abbrev pub AreNamedOnce : Dict Text Text → Type 0
AreNamedOnce [] = Unit
AreNamedOnce ((name, value) ∷ files) = (lookup name files ≡ none) × AreNamedOnce files

-- The first file of the name is left out.
without : Text → Dict Text Text → Dict Text Text
without name [] = []
without name ((other, value) ∷ files) =
    if other == name then files else (other, value) ∷ without name files

length-without :
    (name : Text) (files : Dict Text Text)
    → lookup name files ≢ none
    → length files ≡ suc (length (without name files))
unfolding without lookup
length-without name [] h = absurd (h refl)
length-without name ((other, value) ∷ files) h = elim (Bool-cases (other == name)) [
  | inl same ↦ rw same refl
  | inr differs ↦ rw differs (ap suc (length-without name files (rw (differs, lookup) at h)))
]

lookup-without :
    (name asked : Text) (files : Dict Text Text)
    → (name == asked) ≡ false
    → lookup asked (without name files) ≡ lookup asked files
unfolding without lookup
lookup-without name asked [] h = refl
lookup-without name asked ((other, value) ∷ files) h =
    ground (arith, lookup-without name asked files h)

without-AreNamedOnce :
    (name : Text) (files : Dict Text Text) → AreNamedOnce files → AreNamedOnce (without name files)
unfolding without
without-AreNamedOnce name [] _ = tt
without-AreNamedOnce name ((other, value) ∷ files) (h, t) = elim (Bool-cases (other == name)) [
  | inl same ↦ rw same t
  | inr differs ↦
      let apart : (name == other) ≡ false = ground arith in
      rw differs (lookup-without name other files apart ∙ h, without-AreNamedOnce name files t)
]

lookup-without_self :
    (name : Text) (files : Dict Text Text)
    → AreNamedOnce files
    → lookup name (without name files) ≡ none
unfolding without lookup
lookup-without_self name [] _ = refl
lookup-without_self name ((other, value) ∷ files) (h, t) = elim (Bool-cases (other == name)) [
  | inl same ↦ rw (same, ← ==→≡ other name same) h
  | inr differs ↦ ground (arith, lookup-without_self name files t)
]

-- Every file of `left` is found in `right`.
unfoldable pub AllFound : Dict Text Text → Dict Text Text → Type 0
AllFound right left = All (λ file. lookup file.0 right ≡ some file.1) left

AllFound-without :
    (name : Text) (left right : Dict Text Text)
    → lookup name left ≡ none
    → AllFound right left
    → AllFound (without name right) left
unfolding AllFound lookup
AllFound-without name [] right h _ = tt
AllFound-without name ((other, value) ∷ left) right h (f, fs) =
    let apart : (name == other) ≡ false = ground arith in
    (lookup-without name other right apart ∙ f, AllFound-without name left right (ground arith) fs)

pub AllFound-SameFiles :
    (left right : Dict Text Text)
    → AreNamedOnce left
    → length left ≡ length right
    → AllFound right left
    → SameFiles left right
unfolding AllFound lookup
AllFound-SameFiles [] [] _ e _ asked = refl
AllFound-SameFiles [] (file ∷ right) _ e _ asked = absurd (omega arith)
AllFound-SameFiles ((name, value) ∷ left) right (once, rest) e (f, fs) asked =
    let shorter : length right ≡ suc (length (without name right)) =
      length-without name right (λ missing. cc) in
    let tail =
      AllFound-SameFiles left (without name right) rest (omega (arith, shorter, e))
        (AllFound-without name left right once fs) asked in
    elim (Bool-cases (name == asked)) [
      | inl same ↦ rw (same, ← ==→≡ name asked same) (sym f)
      | inr differs ↦ rw differs (tail ∙ lookup-without name asked right differs)
    ]

SameFiles-without :
    (name value : Text) (left right : Dict Text Text)
    → lookup name left ≡ none
    → AreNamedOnce right
    → SameFiles ((name, value) ∷ left) right
    → SameFiles left (without name right)
unfolding lookup
SameFiles-without name value left right once names same asked = elim (Bool-cases (name == asked)) [
  | inl equal ↦
      subst (λ a. lookup a left ≡ lookup a (without name right)) (==→≡ name asked equal)
        (once ∙ sym (lookup-without_self name right names))
  | inr differs ↦ sym (rw differs refl) ∙ same asked ∙ sym (lookup-without name asked right differs)
]

head_found :
    (name value : Text) (left right : Dict Text Text)
    → SameFiles ((name, value) ∷ left) right
    → lookup name right ≡ some value
unfolding lookup
head_found name value left right same = sym (same name) ∙ rw (==_refl name) refl

pub length-SameFiles :
    (left right : Dict Text Text)
    → AreNamedOnce left
    → AreNamedOnce right
    → SameFiles left right
    → length left ≡ length right
unfolding lookup
length-SameFiles [] [] _ names same = refl
length-SameFiles [] ((name, value) ∷ right) _ names same =
    let found = head_found name value right [] (λ asked. sym (same asked)) in cc
length-SameFiles ((name, value) ∷ left) right (once, rest) names same =
    let found : lookup name right ≡ some value = head_found name value left right same in
    let shorter : length right ≡ suc (length (without name right)) =
      length-without name right (λ missing. cc) in
    ap suc (
      length-SameFiles left (without name right) rest (without-AreNamedOnce name right names)
        (SameFiles-without name value left right once names same))
    ∙ sym shorter

found_in_all :
    (name : Text) (left right : Dict Text Text)
    → lookup name left ≡ none
    → AllFound (without name right) left
    → AllFound right left
unfolding AllFound lookup
found_in_all name [] right h _ = tt
found_in_all name ((other, value) ∷ left) right h (f, fs) =
    let apart : (name == other) ≡ false = ground arith in
    (
      sym (lookup-without name other right apart) ∙ f,
      found_in_all name left right (ground arith) fs,
    )

pub SameFiles-AllFound :
    (left right : Dict Text Text)
    → AreNamedOnce left
    → AreNamedOnce right
    → SameFiles left right
    → AllFound right left
unfolding AllFound
SameFiles-AllFound [] right _ names same = tt
SameFiles-AllFound ((name, value) ∷ left) right (once, rest) names same = (
  head_found name value left right same,
  found_in_all name left right once (
      SameFiles-AllFound left (without name right) rest (without-AreNamedOnce name right names)
        (SameFiles-without name value left right once names same)),
)
