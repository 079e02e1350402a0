-- ===== src/Workflow/Attempt/Verdicts.antt =====
-- What a verdict of an attempt rests on.
use Prim.Native.String.{◌++◌ as str_append}
use mathlib.Core.Bool.{true≢false}
use hermes_ai_devops.Common.{
  ◌≡◌, ◌≢◌, refl, ◌⊎◌, inl, inr, String, Bool, true, false, Option, none, some, List, [], ◌∷◌, ◌++◌,
  arith, eq_iff, Bool-cases, Option-cases, if◌then◌else◌, string_eq, sym, ◌∙◌, ap, ◌+◌, ◌*◌,
}
use hermes_ai_devops.Store.State.{Lease, TaskResultSignal, ResultRecord, second}
use hermes_ai_devops.Rules.{Input, Decision, decide, route, decide_v1}
use hermes_ai_devops.Rules.Priority.{IsClean, decide_v1-passed_iff}
use hermes_ai_devops.Workflow.Types.{TaskSummary, ExtractEvidenceResponse}
use hermes_ai_devops.Workflow.Scope.{ReleaseSite, site_load_result_failed}
use hermes_ai_devops.Workflow.Signatures.{merge_signature_hits, merge_signature_hits-append}
use hermes_ai_devops.Workflow.Await.{Awaited, matched, gave_up, await_result}
use hermes_ai_devops.Workflow.Attempt.{
  Answers, Job, Attempted, Acquisition, waiting, got, refused, acquire_loop, infra_summary, task,
  infra_input, result_input, verdict_of, is_passed, aborted, conclude, judge, after_signal,
  after_dispatch, after_create, after_acquire, run_attempt, Loaded, load_failed, no_row, loaded,
}

infra_not_passed :
    (version reason : String) → verdict_of (decide version (infra_input reason)) ≢ "PASSED"
unfolding decide route decide_v1
infra_not_passed version reason = ground (arith, eq_iff "INFRA_ERROR" "PASSED", eq_iff "" "PASSED")

passed_text : (d : Option Decision) → verdict_of d ≡ "PASSED" → is_passed d ≡ true
passed_text d h = ground (
  arith,
  eq_iff "" "PASSED",
  eq_iff "INFRA_ERROR" "PASSED",
  eq_iff "TEST_FAILED" "PASSED",
  eq_iff "PERF_REGRESSION" "PASSED",
  eq_iff "INCONCLUSIVE" "PASSED",
)

passed-IsClean : (version : String) (i : Input) → is_passed (decide version i) ≡ true → IsClean i
unfolding decide
passed-IsClean version i h = (decide_v1-passed_iff i).0 (
    ground (
      arith,
      eq_iff version "",
      eq_iff "verdict-rules-v1" "verdict-rules-v1",
      eq_iff version "verdict-rules-v1",
    ))

abbrev verdict_in : Option TaskSummary → String
verdict_in none = ""
verdict_in (some s) = s.verdict

blank_not_passed : ◌≢◌ {A = String} "" "PASSED"
blank_not_passed = ground (arith, eq_iff "" "PASSED")

append-nil_left : (xs ys : List String) → xs ++ ys ≡ [] → xs ≡ []
append-nil_left [] ys h = refl
append-nil_left (x ∷ xs) ys h = cc

module _ (j : Job) (env : Answers) where
  abbrev reported_input : TaskResultSignal → Input
  reported_input res = result_input j.spec res res.signatures_hit

  -- A passed summary rests on a result that is clean.
  abbrev Justified : Attempted → Type 0
  Justified a =
      (verdict_in a.summary ≢ "PASSED")
      ⊎ ((rec : ResultRecord) × (env.result ≡ loaded rec) × IsClean (reported_input rec.result))

  merged-IsClean :
      (res : TaskResultSignal) (extracted : List String)
      → IsClean (result_input j.spec res (merge_signature_hits res.signatures_hit extracted).0)
      → IsClean (reported_input res)
  merged-IsClean res extracted c =
      let (new, e, added) = merge_signature_hits-append res.signatures_hit extracted in
      record {
        not_canceled = c.not_canceled;
        not_failed = c.not_failed;
        not_timed_out = c.not_timed_out;
        no_infra_reason = c.no_infra_reason;
        no_signature = append-nil_left res.signatures_hit new (sym e ∙ c.no_signature);
        no_failed_case = c.no_failed_case;
        exit_zero = c.exit_zero;
      }

  module _ (l : Lease) where
    if-Justified :
        (b : Bool) (x y : Attempted) → Justified x → Justified y → Justified (if b then x else y)
    if-Justified true x y p q = p
    if-Justified false x y p q = q

    conclude-Justified :
        (rec : ResultRecord) (d : Option Decision) (ev : Option ExtractEvidenceResponse)
        → env.result ≡ loaded rec
        → (is_passed d ≡ true → IsClean (reported_input rec.result))
        → Justified (conclude j env l rec.result d ev)
    unfolding conclude
    conclude-Justified rec d ev e clean = elim (Bool-cases (is_passed d)) [
      | inl pass ↦ inr (rec, e, clean pass)
      | inr miss ↦ inl (λ same. true≢false (sym (passed_text d same) ∙ miss))
    ]

    judge-Justified :
        (rec : ResultRecord) → env.result ≡ loaded rec → Justified (judge j env l rec.result)
    unfolding judge
    judge-Justified rec e =
        if-Justified (is_passed (decide j.rule_version (reported_input rec.result))) _ _
          (conclude-Justified rec _ none e
            (passed-IsClean j.rule_version (reported_input rec.result)))
          (go env.evidence)
      where
        go :
            (o : Option ExtractEvidenceResponse)
            → Justified (elim o [
              | none ↦
                  conclude j env l rec.result
                    (decide j.rule_version (reported_input rec.result))
                    none
              | some ev ↦
                  let (merged, added) =
                    merge_signature_hits rec.result.signatures_hit ev.matched_signatures in
                  if added
                  then conclude j env l rec.result
                      (decide j.rule_version (result_input j.spec rec.result merged))
                      (some ev)
                  else conclude j env l rec.result
                      (decide j.rule_version (reported_input rec.result))
                      (some ev)
            ])
        go none =
            conclude-Justified rec _ none e
              (passed-IsClean j.rule_version (reported_input rec.result))
        go (some ev) =
            let hits = merge_signature_hits rec.result.signatures_hit ev.matched_signatures in
            let again = result_input j.spec rec.result hits.0 in
            if-Justified hits.1 _ _
              (conclude-Justified rec (decide j.rule_version again) (some ev) e (λ p.
                merged-IsClean rec.result ev.matched_signatures
                  (passed-IsClean j.rule_version again p)))
              (conclude-Justified rec _ (some ev) e
                (passed-IsClean j.rule_version (reported_input rec.result)))

    aborted-Justified :
        (site : ReleaseSite) (reason : String) → Justified (aborted j env l site reason)
    aborted-Justified site reason = inl (infra_not_passed j.rule_version reason)

    after_signal-Justified : Justified (after_signal j env l)
    unfolding after_signal
    after_signal-Justified = go env.result refl
      where
        go :
            (r : Loaded)
            → env.result ≡ r
            → Justified (elim r [
              | load_failed e ↦
                  aborted j env l site_load_result_failed (str_append "load result: " e)
              | no_row ↦
                  aborted j env l site_load_result_failed "load result: no row in results table"
              | loaded rec ↦ judge j env l rec.result
            ])
        go (load_failed e) q =
            aborted-Justified site_load_result_failed (str_append "load result: " e)
        go no_row q =
            aborted-Justified site_load_result_failed "load result: no row in results table"
        go (loaded rec) q = judge-Justified rec q

    after_dispatch-Justified : Justified (after_dispatch j env l)
    unfolding after_dispatch
    after_dispatch-Justified = go (
        await_result (task j env) (env.started + j.spec.hard_timeout_sec * second)
          (env.started + j.spec.lease_seconds * second) env.turns)
      where
        go :
            (o : Option Awaited)
            → Justified (elim o [
              | none ↦ record { summary = none; calls = [] }
              | some matched ↦ after_signal j env l
              | some (gave_up site reason) ↦ aborted j env l site reason
            ])
        go none = inl blank_not_passed
        go (some matched) = after_signal-Justified
        go (some (gave_up site reason)) = aborted-Justified site reason

    after_create-Justified : Justified (after_create j env l)
    unfolding after_create
    after_create-Justified = elim (Option-cases env.dispatch_error) [
      | inl ok ↦ rw ok after_dispatch-Justified
      | inr (e, failed) ↦
          rw failed (inl (infra_not_passed j.rule_version (str_append "dispatch: " e)))
    ]

    after_acquire-Justified : Justified (after_acquire j env l)
    unfolding after_acquire
    after_acquire-Justified = elim (Option-cases env.create_error) [
      | inl ok ↦ rw ok after_create-Justified
      | inr (e, failed) ↦
          rw failed (inl (infra_not_passed j.rule_version (str_append "create task: " e)))
    ]

  run_attempt-Justified : Justified (run_attempt j env)
  unfolding run_attempt
  run_attempt-Justified = go (acquire_loop j.spec env.explanation 0 env.rounds)
    where
      go :
          (q : Acquisition)
          → Justified (elim q [
            | waiting ↦ record { summary = none; calls = [] }
            | refused reason retryable ↦ record {
              summary = some (infra_summary j env "" reason retryable);
              calls = [];
            }
            | got l ↦ after_acquire j env l
          ])
      go waiting = inl blank_not_passed
      go (refused reason retryable) = inl (infra_not_passed j.rule_version reason)
      go (got l) = after_acquire-Justified l

-- An attempt is summed up as passed only if its result could be loaded and is clean: neither an
-- infrastructure failure nor a second decision on extracted evidence makes it pass.
pub run_attempt-passed :
    (j : Job) (env : Answers) (s : TaskSummary)
    → (run_attempt j env).summary ≡ some s
    → s.verdict ≡ "PASSED"
    → (rec : ResultRecord) × (env.result ≡ loaded rec)
      × IsClean (result_input j.spec rec.result rec.result.signatures_hit)
run_attempt-passed j env s h pass = elim (run_attempt-Justified j env) [
  | inl not_passed ↦ absurd (not_passed (ap verdict_in h ∙ pass))
  | inr found ↦ found
]
