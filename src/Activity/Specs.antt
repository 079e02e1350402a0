-- ===== src/Activity/Specs.antt =====
-- SelectTestSpecs and the configuration of the variants (runtime/internal/activity/specs.go). The text
-- that tells why a variant is skipped is an argument, as is for which variants the question for a
-- capable device fails.
pub mod Selection
use Prim.Native.Char.{Char, code as code_of}
use Prim.Native.String.{◌++◌ as str_append}
use hermes_ai_devops.Common.{
  ℕ, ◌+◌, String, Bool, true, false, not, ◌&&◌, ◌||◌, Option, none, some, List, [], ◌∷◌, ◌++◌, any,
  leb, if◌then◌else◌, ◌==◌, string_eq, nat_eq,
}
use hermes_ai_devops.Common.Dict.{Dict, lookup, insert}
use hermes_ai_devops.Common.Text.{codes, equal_fold}
use hermes_ai_devops.Rules.{
  Category, infra, build, code, model, delegate, device, perf, unknown, other,
}
use hermes_ai_devops.Store.State.{MemStore, DeviceSelector, VariantRequirements, VariantSignature}
use hermes_ai_devops.Store.Devices.{has_capable_device}
use hermes_ai_devops.Workflow.Types.{PackageRef, TestSpec}

pub record SpecDefaults : Type 0 where
  pub max_infra_retries : ℕ
  pub lease_seconds : ℕ
  pub hard_timeout_margin : ℕ
  pub device_wait_rounds : ℕ
  pub device_wait_seconds : ℕ

-- variantDecl; its requirements have no lower bound of storage.
pub record VariantDecl : Type 0 where
  pub requirements : VariantRequirements
  pub timeout_sec : ℕ
  pub signatures : List VariantSignature

-- variantsFile and the defaults that LoadSpecConfig adds.
pub record SpecConfig : Type 0 where
  pub timeout_sec : ℕ
  pub signatures_common_android : List VariantSignature
  pub signatures_common_linux : List VariantSignature
  pub variants : Dict VariantDecl
  pub defaults : SpecDefaults

-- rules.Category(text)
unfoldable pub category_named : String → Category
category_named t =
    if t == "INFRA"
    then infra
    else if t == "BUILD"
    then build
    else if t == "CODE"
    then code
    else if t == "MODEL"
    then model
    else if t == "DELEGATE"
    then delegate
    else if t == "DEVICE"
    then device
    else if t == "PERF"
    then perf
    else if t == "UNKNOWN"
    then unknown
    else other t

abbrev is_digit : Char → Bool
is_digit c = leb b'0' (code_of c) && leb (code_of c) b'9'

-- The digits at the head of a text.
unfoldable pub digits : String → String
digits String.[] = ""
digits (String.◌∷◌ c s) = let rest = digits s in if is_digit c then String.◌∷◌ c rest else ""

-- What stands behind a prefix.
unfoldable pub behind : String → String → Option String
behind String.[] s = some s
behind (String.◌∷◌ p ps) String.[] = none
behind (String.◌∷◌ p ps) (String.◌∷◌ c s) =
    let rest = behind ps s in if code_of p == code_of c then rest else none

-- A prefix and at least one digit at the head of a text.
unfoldable pub named_by : String → String → Option String
unfolding behind digits
named_by prefix s = elim (behind prefix s) [
  | none ↦ none
  | some rest ↦ if digits rest == "" then none else some (str_append prefix (digits rest))
]

abbrev or_else : Option String → Option String → Option String
or_else (some x) y = some x
or_else none y = y

-- FindString of (QCS[0-9]+|QCM[0-9]+|SM[0-9]+|RK[0-9]+): the first place where one of them stands.
unfoldable pub soc_in_name : String → Option String
unfolding named_by
soc_in_name String.[] = none
soc_in_name (String.◌∷◌ c s) =
    let here : String = String.◌∷◌ c s in
    or_else (named_by "QCS" here) (
      or_else (named_by "QCM" here)
        (or_else (named_by "SM" here) (or_else (named_by "RK" here) (soc_in_name s))))

-- The body of the loop of validateVariants; `true` where it goes on.
unfoldable pub is_valid_variant : String → VariantDecl → Bool
unfolding soc_in_name
is_valid_variant name v =
    let req = v.requirements in
    not (req.os == "")
    && not (req.abi == "")
    && elim req.soc [ [] ↦ false | x ∷ xs ↦ true ]
    && elim (soc_in_name name) [ none ↦ true | some m ↦ any (λ soc. equal_fold soc m) req.soc ]

-- `true` where validateVariants returns nil.
unfoldable pub validate_variants : Dict VariantDecl → Bool
unfolding is_valid_variant
validate_variants [] = true
validate_variants ((name, v) ∷ vs) = is_valid_variant name v && validate_variants vs

-- What SelectTestSpecs is set up with: `store` and `config` may be nil.
pub record Acts : Type 0 where
  pub config : Option SpecConfig
  pub store : Option MemStore
  pub check_fails : String → Bool
  pub skip_reason : TestSpec → String

abbrev pub declared : Acts → String → Option VariantDecl
declared a variant = elim a.config [ none ↦ none | some c ↦ lookup variant c.variants ]

-- The package's own requirements, or those of the configuration.
unfoldable pub requirements_of : Acts → PackageRef → Option VariantRequirements
requirements_of a p = elim p.requirements [
  | some own ↦ some own
  | none ↦ elim (declared a p.variant) [ none ↦ none | some v ↦ some v.requirements ]
]

-- A map of the signatures' categories; a later declaration overrides an earlier one.
abbrev pub classify : Dict Category → List VariantSignature → Dict Category
classify m [] = m
classify m (s ∷ ss) = classify (insert s.id (category_named s.classify) m) ss

abbrev common_signatures : SpecConfig → String → List VariantSignature
common_signatures c os =
    if os == "linux" then c.signatures_common_linux else c.signatures_common_android

unfoldable pub signatures_of : Acts → PackageRef → String → Dict Category
signatures_of a p os = elim p.failure_signatures [
  | s ∷ ss ↦ classify [] (s ∷ ss)
  | [] ↦ elim a.config [
    | none ↦ []
    | some c ↦ elim (lookup p.variant c.variants) [
      | none ↦ []
      | some v ↦ classify (classify [] (common_signatures c os)) v.signatures
    ]
  ]
]

unfoldable pub timeout_of : SpecConfig → String → ℕ
timeout_of c variant = elim (lookup variant c.variants) [
  | none ↦ c.defaults.hard_timeout_margin
  | some v ↦
      c.defaults.hard_timeout_margin + (if v.timeout_sec == 0 then c.timeout_sec else v.timeout_sec)
]

abbrev pub os_of : VariantRequirements → String
os_of req = if req.os == "" then "android" else req.os

unfoldable pub spec_of : Acts → SpecConfig → PackageRef → VariantRequirements → TestSpec
unfolding signatures_of timeout_of
spec_of a c p req = record {
  test_id = p.variant;
  variant = p.variant;
  pkg = p;
  selector = record { os = os_of req; soc = req.soc; capabilities = req.capabilities };
  signature_category = signatures_of a p (os_of req);
  max_infra_retries = c.defaults.max_infra_retries;
  lease_seconds = c.defaults.lease_seconds;
  hard_timeout_sec = timeout_of c p.variant;
  device_wait_rounds = c.defaults.device_wait_rounds;
  device_wait_seconds = c.defaults.device_wait_seconds;
}

pub record SkippedSpec : Type 0 where
  pub variant : String
  pub reason : String

pub record SpecSelection : Type 0 where
  pub specs : List TestSpec
  pub skipped : List SkippedSpec

-- No device of the fleet could ever run the spec. A question that fails keeps the spec.
unfoldable pub lacks_device : Acts → TestSpec → Bool
lacks_device a spec = elim a.store [
  | none ↦ false
  | some s ↦ not (a.check_fails spec.variant) && not (has_capable_device s spec.selector)
]

abbrev pub skip_of : Acts → TestSpec → SkippedSpec
skip_of a spec = record { variant = spec.variant; reason = a.skip_reason spec }

-- The body of the loop for a package with requirements; `none` is the panic of `a.SpecCfg.defaults`
-- where SpecCfg is nil.
abbrev pub place : Acts → PackageRef → VariantRequirements → SpecSelection → Option SpecSelection
place a p req sel = elim a.config [
  | none ↦ none
  | some c ↦
      let spec : TestSpec = spec_of a c p req in
      if lacks_device a spec
      then some (record sel { skipped = sel.skipped ++ skip_of a spec ∷ [] })
      else some (record sel { specs = sel.specs ++ spec ∷ [] })
]

unfoldable pub select_from : Acts → List PackageRef → SpecSelection → Option SpecSelection
select_from a [] sel = some sel
select_from a (p ∷ ps) sel = elim (requirements_of a p) [
  | none ↦ select_from a ps sel
  | some req ↦ elim (place a p req sel) [ none ↦ none | some next ↦ select_from a ps next ]
]

unfoldable pub select_test_specs : Acts → List PackageRef → Option SpecSelection
unfolding select_from
select_test_specs a packages = select_from a packages (record { specs = []; skipped = [] })
