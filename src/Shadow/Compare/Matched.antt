-- ===== src/Shadow/Compare/Matched.antt =====
-- What a reported match says of two outputs.
use go_rocketmq_dashboard.Base.{
  ◌≡◌, ◌≢◌, ◌↔◌, ◌∙◌, refl, sym, ap, true, Option-cases, inl, inr, some, [], ◌∷◌, ◌==◌, ==→≡,
  ==_refl, nat_eq, text_eq, length, arith, All,
}
use go_rocketmq_dashboard.Base.Dict.{Dict, lookup}
use go_rocketmq_dashboard.Base.Text.{Text}
use go_rocketmq_dashboard.Shadow.Compare.{
  ShadowComparableOutput, content, same_contents, equal_shadow_artifacts, compare_shadow_output,
}
use go_rocketmq_dashboard.Shadow.Compare.Files.{
  SameFiles, AreNamedOnce, AllFound, AllFound-SameFiles, length-SameFiles, SameFiles-AllFound,
}

abbrev pub NoneIsEmpty : Dict Text Text → Type 0
NoneIsEmpty files = All (λ file. file.1 ≢ []) files

not_empty_found :
    (right : Dict Text Text) (name value : Text)
    → value ≢ []
    → (content right name == value) ≡ true
    → lookup name right ≡ some value
unfolding content
not_empty_found right name value h e = elim (Option-cases (lookup name right)) [
  | inl missing ↦ absurd (h (sym (==→≡ [] value (rw (missing, content) at e))))
  | inr (found, o) ↦ o ∙ ap some (==→≡ found value (rw (o, content) at e))
]

same_contents-AllFound :
    (left right : Dict Text Text)
    → NoneIsEmpty left
    → same_contents left right ≡ true
    → AllFound right left
unfolding same_contents AllFound
same_contents-AllFound [] right _ h = tt
same_contents-AllFound ((name, value) ∷ left) right (some_byte, rest) h = (
  not_empty_found right name value some_byte (ground arith),
  same_contents-AllFound left right rest (ground arith),
)

content_found :
    (name value : Text) (files : Dict Text Text)
    → lookup name files ≡ some value
    → content files name ≡ value
unfolding content
content_found name value files h = rw (h, content) refl

AllFound-same_contents :
    (left right : Dict Text Text) → AllFound right left → same_contents left right ≡ true
unfolding same_contents AllFound
AllFound-same_contents [] right _ = refl
AllFound-same_contents ((name, value) ∷ left) right (h, t) =
    let kept = content_found name value right h in
    rw (kept, ==_refl value) (AllFound-same_contents left right t)

-- Where each name stands once in each of the two maps of files, and no file of the primary is empty,
-- a comparison reports a match exactly when the two standard outputs, the two standard errors and
-- the two error texts are equal, and the two sides have the same files with the same contents.
pub compare_shadow_output-matched :
    (primary target : ShadowComparableOutput)
    → AreNamedOnce primary.artifacts
    → AreNamedOnce target.artifacts
    → NoneIsEmpty primary.artifacts
    → ((compare_shadow_output primary target).matched ≡ true) ↔ (
        (primary.stdout ≡ target.stdout)
        × (primary.stderr ≡ target.stderr)
        × (primary.error ≡ target.error)
        × SameFiles primary.artifacts target.artifacts)
unfolding compare_shadow_output equal_shadow_artifacts
compare_shadow_output-matched primary target once names some_byte = (
  λ h. (
    ground arith,
    ground arith,
    ground arith,
    AllFound-SameFiles primary.artifacts target.artifacts once (ground arith)
        (same_contents-AllFound primary.artifacts target.artifacts some_byte (ground arith)),
  ),
  λ (out, err, error, files).
      rw
        (
          out,
          err,
          error,
          length-SameFiles primary.artifacts target.artifacts once names files,
          AllFound-same_contents primary.artifacts target.artifacts
              (SameFiles-AllFound primary.artifacts target.artifacts once names files),
          ==_refl target.stdout,
          ==_refl target.stderr,
          ==_refl target.error,
          ==_refl (length target.artifacts),
        )
        refl,
)
