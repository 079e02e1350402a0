-- ===== src/Activity/Specs/Selection.antt =====
-- What SelectTestSpecs makes of the packages of a trigger (runtime/internal/activity/specs.go).
use hermes_ai_devops.Common.{
  ◌≡◌, refl, subst, String, Bool, true, false, not, none, some, List, [], ◌∷◌, ◌++◌, map, filter,
  any, if◌then◌else◌, ◌==◌, string_eq, eq_iff, arith, Option-cases, inl, inr,
}
use hermes_ai_devops.Common.Dict.{Dict, lookup}
use hermes_ai_devops.Common.Text.{equal_fold}
use hermes_ai_devops.Store.State.{VariantRequirements}
use hermes_ai_devops.Workflow.Types.{PackageRef, TestSpec}
use hermes_ai_devops.Activity.Specs.{
  VariantDecl, SpecConfig, Acts, requirements_of, soc_in_name, is_valid_variant, validate_variants,
  spec_of, SpecSelection, lacks_device, skip_of, select_from, select_test_specs,
}

-- The specs of all packages that have requirements.
unfoldable pub all_specs : Acts → SpecConfig → List PackageRef → List TestSpec
all_specs a c [] = []
all_specs a c (p ∷ ps) =
    let rest = all_specs a c ps in
    elim (requirements_of a p) [ none ↦ rest | some req ↦ spec_of a c p req ∷ rest ]

abbrev pub kept : Acts → TestSpec → Bool
kept a spec = not (lacks_device a spec)

abbrev split_by : Acts → SpecSelection → List TestSpec → SpecSelection
split_by a sel specs = record {
  specs = sel.specs ++ filter (kept a) specs;
  skipped = sel.skipped ++ map (skip_of a) (filter (lacks_device a) specs);
}

-- Where a spec goes.
abbrev put : Acts → SpecSelection → TestSpec → SpecSelection
put a sel spec =
    if lacks_device a spec
    then record sel { skipped = sel.skipped ++ skip_of a spec ∷ [] }
    else record sel { specs = sel.specs ++ spec ∷ [] }

abbrev pub brings_own : PackageRef → Bool
brings_own p = elim p.requirements [ none ↦ false | some req ↦ true ]

select_from_panics :
    (a : Acts) (ps : List PackageRef) (sel : SpecSelection)
    → a.config ≡ none
    → (any brings_own ps ≡ true → select_from a ps sel ≡ none)
      × (any brings_own ps ≡ false → select_from a ps sel ≡ some sel)
unfolding select_from requirements_of
select_from_panics a [] sel unset = (λ h. ground (arith, h), λ h. refl)
select_from_panics a (p ∷ ps) sel unset =
    let rest = select_from_panics a ps sel unset in
    (λ h. ground (arith, h, unset, rest.0), λ h. ground (arith, h, unset, rest.1))

-- Without a configuration the activity panics if a package brings its own requirements, and only then;
-- if none does, it selects and skips nothing.
pub select_test_specs_panics :
    (a : Acts) (ps : List PackageRef)
    → a.config ≡ none
    → (any brings_own ps ≡ true → select_test_specs a ps ≡ none)
      × (any brings_own ps ≡ false
          → select_test_specs a ps ≡ some (record { specs = []; skipped = [] }))
unfolding select_test_specs
select_test_specs_panics a ps unset =
    select_from_panics a ps (record { specs = []; skipped = [] }) unset

validated :
    (name : String) (v : VariantDecl) (vs : Dict VariantDecl)
    → validate_variants vs ≡ true
    → lookup name vs ≡ some v
    → is_valid_variant name v ≡ true
unfolding validate_variants lookup
validated name v [] valid there = ground (arith, there)
validated name v ((key, w) ∷ vs) valid there =
    ground (arith, valid, there, eq_iff key name, validated name v vs)

-- In a configuration that is validated, a variant whose name holds the name of a SoC has requirements
-- that ask for this SoC, up to the case of letters, and for an operating system and an ABI: so does a
-- package of this variant that brings no requirements of its own.
pub requirements_of_validated :
    (a : Acts) (c : SpecConfig) (p : PackageRef) (req : VariantRequirements) (soc : String)
    → (a.config ≡ some c) × (validate_variants c.variants ≡ true)
    → (p.requirements ≡ none) × (requirements_of a p ≡ some req)
    → soc_in_name p.variant ≡ some soc
    → (any (λ s. equal_fold s soc) req.soc ≡ true)
      × ((req.os == "") ≡ false)
      × ((req.abi == "") ≡ false)
unfolding requirements_of is_valid_variant
requirements_of_validated a c p req soc (set, valid) (bare, found) named =
    elim (Option-cases (lookup p.variant c.variants)) [
      | inl absent ↦ absurd (ground (arith, set, bare, found, absent))
      | inr (v, there) ↦
          let ok : is_valid_variant p.variant v ≡ true =
            validated p.variant v c.variants valid there in
          let same : v.requirements ≡ req = ground (arith, set, bare, found, there) in
          subst
            (λ r.
              (any (λ s. equal_fold s soc) r.soc ≡ true)
              × ((r.os == "") ≡ false)
              × ((r.abi == "") ≡ false))
            same (ground (arith, ok, named), ground (arith, ok), ground (arith, ok))
    ]
