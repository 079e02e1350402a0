-- ===== src/Rules/Priority.antt =====
-- What a decision of verdict-rules-v1 says of its input (runtime/internal/rules/rules.go).
use hermes_ai_devops.Common.{
  ◌≡◌, refl, ◌≢◌, ◌↔◌, ◌⊎◌, inl, inr, String, true, false, none, some, List, [], ◌∷◌, ◌++◌, arith,
  eq_iff, ◌==◌, string_eq, Bool-cases,
}
use hermes_ai_devops.Common.Int.{ℤ, pos, negsuc, is_zero, is_positive}
use hermes_ai_devops.Rules.{
  Input, passed, test_failed, infra_error, infra, version_v1, decide_v1, decide, validate_version,
}

is_zero_iff : (z : ℤ) → (is_zero z ≡ true) ↔ (z ≡ pos 0)
is_zero_iff (pos n) = ground arith
is_zero_iff (negsuc n) = ground arith

-- What an input must be for its task to count as passed.
pub record IsClean (i : Input) : Type 0 where
  pub not_canceled : i.status ≢ "CANCELED"
  pub not_failed : i.status ≢ "FAILED"
  pub not_timed_out : i.status ≢ "TIMEOUT"
  pub no_infra_reason : i.infra_reason ≡ ""
  pub no_signature : i.signatures_hit ≡ []
  pub no_failed_case : is_positive i.cases_failed ≡ false
  pub exit_zero : i.exit_code ≡ pos 0

module _ (i : Input) where
  passed→IsClean : (decide_v1 i).verdict ≡ passed → IsClean i
  unfolding decide_v1
  passed→IsClean h = ground (
    arith,
    eq_iff i.status "CANCELED",
    eq_iff i.status "FAILED",
    eq_iff i.status "TIMEOUT",
    eq_iff i.infra_reason "",
    is_zero_iff i.exit_code,
  )

  IsClean→passed : IsClean i → (decide_v1 i).verdict ≡ passed
  unfolding decide_v1
  IsClean→passed c = ground (
    arith,
    eq_iff i.status "CANCELED",
    eq_iff i.status "FAILED",
    eq_iff i.status "TIMEOUT",
    eq_iff i.infra_reason "",
    is_zero_iff i.exit_code,
  )

  -- A task passes exactly if it was neither canceled, failed nor timed out, Runtime saw no
  -- infrastructure fault, no signature was hit, no case failed and the exit code is 0.
  pub decide_v1-passed_iff : ((decide_v1 i).verdict ≡ passed) ↔ IsClean i
  decide_v1-passed_iff = (passed→IsClean, IsClean→passed)

  -- A decision asks for a mechanical retry exactly if its verdict is INFRA_ERROR and its category
  -- is INFRA.
  pub decide_v1-retry_iff :
      ((decide_v1 i).retry ≡ true)
      ↔ (((decide_v1 i).verdict ≡ infra_error) × ((decide_v1 i).category ≡ infra))
  unfolding decide_v1
  decide_v1-retry_iff = ground arith

  more_hits :
      (hits extra : List String)
      → let old = decide_v1 (record i { signatures_hit = hits }) in
        let more = decide_v1 (record i { signatures_hit = hits ++ extra }) in
        (more ≡ old) ⊎ ((more.verdict ≡ test_failed) × (more.retry ≡ false))
  unfolding decide_v1
  more_hits [] [] = inl refl
  more_hits [] (e ∷ extra) = ground arith
  more_hits (h ∷ hits) extra = inl refl

  -- Signature hits that are appended to the reported ones leave the decision as it was, or turn it
  -- into TEST_FAILED with no retry.
  pub decide_v1_more_hits :
      (extra : List String)
      → let more = decide_v1 (record i { signatures_hit = i.signatures_hit ++ extra }) in
        (more ≡ decide_v1 i) ⊎ ((more.verdict ≡ test_failed) × (more.retry ≡ false))
  decide_v1_more_hits extra = more_hits i.signatures_hit extra

abbrev pub IsKnown : String → Type 0
IsKnown version = (version ≡ "") ⊎ (version ≡ version_v1)

module _ (version : String) (i : Input) where
  known :
      IsKnown version → (decide version i ≡ some (decide_v1 i)) × (validate_version version ≡ true)
  unfolding decide validate_version
  known (inl e) = rw e (refl, refl)
  known (inr e) = rw e (refl, refl)

  not_known : ¬ IsKnown version → (decide version i ≡ none) × (validate_version version ≡ false)
  unfolding decide validate_version
  not_known h =
      let not_empty : version ≢ "" = λ e. h (inl e) in
      let not_v1 : version ≢ version_v1 = λ e. h (inr e) in
      ground (arith, eq_iff version "", eq_iff version version_v1)

  IsKnown-dec : IsKnown version ⊎ (¬ IsKnown version)
  IsKnown-dec = elim (Bool-cases (version == "")) [
    | inl e ↦ inl (inl ((eq_iff version "").0 e))
    | inr n ↦ elim (Bool-cases (version == version_v1)) [
      | inl e ↦ inl (inr ((eq_iff version version_v1).0 e))
      | inr k ↦ inr (ground (arith, eq_iff version "", eq_iff version version_v1))
    ]
  ]

  -- A version is accepted, by `validate_version` and by `decide` with the decision of v1, exactly if
  -- it is empty or names v1; on any other version `decide` is an error.
  pub decide_versions :
      ((validate_version version ≡ true) ↔ IsKnown version)
      × ((decide version i ≡ some (decide_v1 i)) ↔ IsKnown version)
      × ((decide version i ≡ none) ↔ (¬ IsKnown version))
  decide_versions = elim IsKnown-dec [
    | inl k ↦ (
      (λ _. k, λ _. (known k).1),
      (λ _. k, λ _. (known k).0),
      (λ e. cc (e, (known k).0), λ h. absurd (h k)),
    )
    | inr n ↦ (
      (λ e. cc (e, (not_known n).1), λ k. absurd (n k)),
      (λ e. cc (e, (not_known n).0), λ k. absurd (n k)),
      (λ _. n, λ _. (not_known n).0),
    )
  ]
