-- ===== src/Rules.antt =====
-- The rule engine (runtime/internal/rules/rules.go): routing by rule version, and the frozen
-- decision procedure of verdict-rules-v1. Statuses and signature ids are the texts that a client
-- sends; verdicts and categories are the constants of the package.
pub mod Priority
mod Tests
use hermes_ai_devops.Common.{
  ℕ, ◌≡◌, String, Bool, true, false, not, Option, none, some, List, [], ◌∷◌, if◌then◌else◌, ◌==◌,
  string_eq, ltb,
}
use hermes_ai_devops.Common.Int.{ℤ, is_zero, is_positive}
use hermes_ai_devops.Common.Dict.{Dict, lookup}
use Prim.Native.String.{◌++◌}
use mathlib.Core.Option

abbrev pub version_v1 : String
version_v1 = "verdict-rules-v1"

abbrev pub default_version : String
default_version = version_v1

-- `other` is a text that is none of the constants; the zero value of the Go type is `other ""`.
pub data Category : Type 0 where
  infra build code model delegate device perf unknown : Category
  other : String → Category

abbrev pub unset : Category
unset = other ""

pub data Verdict : Type 0 where
  passed test_failed perf_regress infra_error inconclusive : Verdict

pub record Input : Type 0 where
  pub status : String
  pub infra_reason : String
  pub exit_code : ℤ
  pub cases_failed : ℤ
  pub signatures_hit : List String
  pub signature_category : Dict Category

pub record Decision : Type 0 where
  pub verdict : Verdict
  pub category : Category
  pub reason : String
  pub retry : Bool

-- signatureCategory[sig], CategoryUnknown if the key is missing.
category_of : Dict Category → String → Category
category_of m sig = Option.get_or (lookup sig m) unknown

abbrev infra_failure : String → Decision
infra_failure reason = record {
  verdict = infra_error;
  category = infra;
  reason = reason;
  retry = true;
}

-- The part behind the signature test.
decide_by_counts : Input → Decision
decide_by_counts i =
    if i.status == "TIMEOUT"
    then infra_failure "test timed out"
    else if is_positive i.cases_failed
    then record {
      verdict = test_failed;
      category = code;
      reason = "test cases failed";
      retry = false;
    }
    else if is_zero i.exit_code
    then record { verdict = passed; category = unset; reason = "all criteria met"; retry = false }
    else record {
      verdict = test_failed;
      category = code;
      reason = "non-zero exit code";
      retry = false;
    }

-- `len(in.SignaturesHit) > 0`: the first hit decides the category.
decide_by_signature : List String → Input → Decision
unfolding decide_by_counts category_of
decide_by_signature [] i = decide_by_counts i
decide_by_signature (sig ∷ rest) i = record {
  verdict = test_failed;
  category = category_of i.signature_category sig;
  reason = "signature hit: " ++ sig;
  retry = false;
}

unfoldable pub decide_v1 : Input → Decision
unfolding decide_by_signature
decide_v1 i =
    if i.status == "CANCELED"
    then record {
      verdict = inconclusive;
      category = unknown;
      reason = "task canceled";
      retry = false;
    }
    else if not (i.infra_reason == "")
    then infra_failure ("infra: " ++ i.infra_reason)
    else if i.status == "FAILED"
    then infra_failure "client-side pipeline failure"
    else decide_by_signature i.signatures_hit i

unfoldable pub route : String → Option (Input → Decision)
route version =
    let v = if version == "" then default_version else version in
    if v == version_v1 then some decide_v1 else none

-- `false` is the error "unknown rule_version".
unfoldable pub validate_version : String → Bool
unfolding route
validate_version version = elim (route version) [ none ↦ false | some f ↦ true ]

-- `none` is the error of an unknown version.
unfoldable pub decide : String → Input → Option Decision
unfolding route
decide version i = Option.map (λ f. f i) (route version)
