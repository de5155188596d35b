-- ===== src/Shadow/Plan/Overrides.antt =====
-- `ApplyShadowFixtureOverrides` and the validity of the plan.
use go_rocketmq_dashboard.Base.{
  ℕ, zero, suc, ◌≡◌, ◌≢◌, refl, ap, none, List, [], ◌∷◌, ◌++◌, map, is_nil, if◌then◌else◌, ◌==◌,
  text_eq, All, All-append, arith, inl, inr, Bool-cases,
}
use mathlib.Core.Path.{subst}
use go_rocketmq_dashboard.Base.Dict.{Dict, lookup, insert, lookup-insert}
use go_rocketmq_dashboard.Base.Text.{Text, trim_space}
use go_rocketmq_dashboard.Shadow.Plan.{
  ShadowSample, ShadowSampleFixture, Grouped, groups, MergedSamples, check_fixture, fixtures_of,
  group_fixtures, concrete, copies, repeat_count, expand, merge_samples,
  apply_shadow_fixture_overrides, validate_shadow_plan,
}
use go_rocketmq_dashboard.Shadow.Plan.Valid.{IsValidSample, validate_shadow_plan-iff-All}

abbrev HasArgs : ShadowSampleFixture → Type 0
HasArgs fixture = fixture.args ≢ []

AllHaveArgs : Dict Text (List ShadowSampleFixture) → Type 0
AllHaveArgs grouped = (name : Text) → All HasArgs (fixtures_of grouped name)

check_fixture-HasArgs :
    (names : List Text) (index : ℕ) (fixture : ShadowSampleFixture)
    → check_fixture names index fixture ≡ none
    → HasArgs fixture
unfolding check_fixture
check_fixture-HasArgs names index fixture h = ground arith

fixtures_of-insert :
    (grouped : Dict Text (List ShadowSampleFixture)) (name other : Text)
    (fixtures : List ShadowSampleFixture)
    → fixtures_of (insert name fixtures grouped) other
      ≡ (if name == other then fixtures else fixtures_of grouped other)
unfolding fixtures_of
fixtures_of-insert grouped name other fixtures =
    ground (arith, lookup-insert name other fixtures grouped)

insert-AllHaveArgs :
    (grouped : Dict Text (List ShadowSampleFixture)) (name : Text) (fixture : ShadowSampleFixture)
    → HasArgs fixture
    → AllHaveArgs grouped
    → AllHaveArgs
        (insert name (fixtures_of grouped name ++ (record fixture { name = name } ∷ [])) grouped)
unfolding AllHaveArgs
insert-AllHaveArgs grouped name fixture h a other = elim (Bool-cases (name == other)) [
  | inl e ↦
      rw (fixtures_of-insert, e)
        (All-append HasArgs (fixtures_of grouped name) (record fixture { name = name } ∷ [])
          (a name) (h, tt))
  | inr e ↦ rw (fixtures_of-insert, e) (a other)
]

group_fixtures-AllHaveArgs :
    (names : List Text) (index : ℕ) (grouped result : Dict Text (List ShadowSampleFixture))
    (fixtures : List ShadowSampleFixture)
    → AllHaveArgs grouped
    → group_fixtures names index grouped fixtures ≡ groups result
    → AllHaveArgs result
unfolding group_fixtures
group_fixtures-AllHaveArgs names index grouped result [] a e = subst AllHaveArgs (ap entries e) a
  where
    entries : Grouped → Dict Text (List ShadowSampleFixture)
    entries (groups d) = d
    entries _ = []
group_fixtures-AllHaveArgs names index grouped result (fixture ∷ fixtures) a e =
    let name = trim_space fixture.name in
    let next =
      insert name (fixtures_of grouped name ++ (record fixture { name = name } ∷ [])) grouped in
    let ok = check_fixture-HasArgs names index fixture in
    let kept : check_fixture names index fixture ≡ none → AllHaveArgs next =
      (λ h. insert-AllHaveArgs grouped name fixture (ok h) a) in
    let rest = group_fixtures-AllHaveArgs names (suc index) next result fixtures in
    ground (arith, ok, kept, rest)

copies-All :
    (P : ShadowSample → Type 0) (n : ℕ) (sample : ShadowSample) → P sample → All P (copies n sample)
unfolding copies
copies-All P zero sample h = tt
copies-All P (suc n) sample h = (h, copies-All P n sample h)

expand-IsValidSample :
    (sample : ShadowSample) (fixtures : List ShadowSampleFixture)
    → IsValidSample sample
    → All HasArgs fixtures
    → All IsValidSample (expand sample fixtures)
unfolding expand
expand-IsValidSample sample [] v _ = tt
expand-IsValidSample sample (fixture ∷ fixtures) v (h, rest) =
    All-append IsValidSample (copies (repeat_count fixture.repeat) (concrete sample fixture))
      (expand sample fixtures)
      (copies-All IsValidSample (repeat_count fixture.repeat) (concrete sample fixture)
        (concrete-IsValidSample sample fixture v h))
      (expand-IsValidSample sample fixtures v rest)
  where
    concrete-IsValidSample :
        (sample : ShadowSample) (fixture : ShadowSampleFixture)
        → IsValidSample sample
        → HasArgs fixture
        → IsValidSample (concrete sample fixture)
    concrete-IsValidSample sample fixture v h = record {
      has_name = v.has_name;
      has_args = h;
      has_official = v.has_official;
      has_shadow = v.has_shadow;
      positive = v.positive;
      enough = v.enough;
    }

merge_samples-IsValidSample :
    (grouped : Dict Text (List ShadowSampleFixture)) (samples : List ShadowSample)
    → AllHaveArgs grouped
    → All IsValidSample samples
    → All IsValidSample (merge_samples grouped samples)
unfolding merge_samples AllHaveArgs
merge_samples-IsValidSample grouped [] a _ = tt
merge_samples-IsValidSample grouped (sample ∷ samples) a (v, rest) =
    elim (Bool-cases (is_nil (fixtures_of grouped sample.name))) [
      | inl e ↦ rw e (v, merge_samples-IsValidSample grouped samples a rest)
      | inr e ↦ rw e (
          All-append IsValidSample (expand sample (fixtures_of grouped sample.name))
            (merge_samples grouped samples)
            (expand-IsValidSample sample (fixtures_of grouped sample.name) v (a sample.name))
            (merge_samples-IsValidSample grouped samples a rest))
    ]

samples_of : MergedSamples → List ShadowSample
samples_of (MergedSamples.merged l) = l
samples_of _ = []

merged-IsValidSample :
    (base result : List ShadowSample) (g : Grouped)
    → ((grouped : Dict Text (List ShadowSampleFixture)) → g ≡ groups grouped → AllHaveArgs grouped)
    → All IsValidSample base
    → elim g [
      | Grouped.refused e ↦ MergedSamples.refused e
      | groups grouped ↦ MergedSamples.merged (merge_samples grouped base)
    ]
      ≡ MergedSamples.merged result
    → All IsValidSample result
unfolding samples_of
merged-IsValidSample base result (groups grouped) k v e =
    subst (All IsValidSample) (ap samples_of e)
      (merge_samples-IsValidSample grouped base (k grouped refl) v)
merged-IsValidSample base result (Grouped.refused x) k v e = cc

applied-IsValidSample :
    (base result : List ShadowSample) (overrides : List ShadowSampleFixture)
    → All IsValidSample base
    → apply_shadow_fixture_overrides base overrides ≡ MergedSamples.merged result
    → All IsValidSample result
unfolding apply_shadow_fixture_overrides samples_of AllHaveArgs lookup
applied-IsValidSample base result [] v e = subst (All IsValidSample) (ap samples_of e) v
applied-IsValidSample base result (fixture ∷ fixtures) v e =
    let names = map (λ s. s.name) base in
    merged-IsValidSample base result (group_fixtures names 0 [] (fixture ∷ fixtures))
      (λ grouped. group_fixtures-AllHaveArgs names 0 [] grouped (fixture ∷ fixtures) no_groups) v e
  where
    no_groups : AllHaveArgs []
    no_groups name = tt

-- Fixtures that are accepted never spoil a plan: when the templates validate, so does the plan that
-- the fixtures make of them.
pub validate-apply_shadow_fixture_overrides :
    (base result : List ShadowSample) (overrides : List ShadowSampleFixture)
    → validate_shadow_plan base ≡ none
    → apply_shadow_fixture_overrides base overrides ≡ MergedSamples.merged result
    → validate_shadow_plan result ≡ none
validate-apply_shadow_fixture_overrides base result overrides h e =
    (validate_shadow_plan-iff-All result).1
      (applied-IsValidSample base result overrides ((validate_shadow_plan-iff-All base).0 h) e)
