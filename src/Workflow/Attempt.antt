-- ===== src/Workflow/Attempt.antt =====
-- One attempt at a test (runtime/internal/workflow/devicetest.go, runAttempt). The calls of
-- activities that write are listed in their order; an activity that answers has its answer in
-- `Answers`. What is only logged is left out, and of a versioned branch the current one is modelled.
pub mod Release
pub mod Named
pub mod Ends
pub mod Verdicts
use Prim.Native.String.{◌++◌ as str_append}
use hermes_ai_devops.Common.{
  ℕ, ◌+◌, ◌*◌, ◌++◌, String, Bool, true, false, not, ◌&&◌, ◌||◌, Option, none, some, List, [], ◌∷◌,
  leb, if◌then◌else◌, ◌==◌, string_eq,
}
use hermes_ai_devops.Common.Int.{pos}
use hermes_ai_devops.Common.Dict.{Dict}
use hermes_ai_devops.Store.State.{
  Float64, Lease, TaskRow, TaskResultSignal, ResultRecord, FinishRequest, FailScope, second,
}
use hermes_ai_devops.Rules.{
  Category, infra, build, code, model, delegate, device, perf, unknown, other, Verdict, passed,
  test_failed, perf_regress, infra_error, inconclusive, Input, Decision, unset, decide,
}
use hermes_ai_devops.Workflow.Types.{
  TestSpec, DeviceTestInput, TaskSummary, DispatchRequest, ExtractEvidenceResponse,
  EscalationGateResponse, EscalationRequest, Analysis,
}
use hermes_ai_devops.Workflow.Ids.{task_id_of, shown_device}
use hermes_ai_devops.Workflow.Scope.{
  ReleaseSite, site_create_task_failed, site_dispatch_failed, site_load_result_failed,
  site_terminal, fail_scope,
}
use hermes_ai_devops.Workflow.Signatures.{merge_signature_hits}
use hermes_ai_devops.Workflow.Await.{Turn, Awaited, matched, gave_up, await_result}

pub data AcquireAnswer : Type 0 where
  acquire_failed : String → AcquireAnswer
  leased : Lease → AcquireAnswer
  none_free : AcquireAnswer

-- One pass of the acquire loop; `woke` is false if the workflow is canceled in the sleep.
pub record Round : Type 0 where
  pub answer : AcquireAnswer
  pub woke : Bool

pub data Loaded : Type 0 where
  load_failed : String → Loaded
  no_row : Loaded
  loaded : ResultRecord → Loaded

-- An `Option String` is an activity's error. `confident` is the comparison of the analysis'
-- confidence with the gate's threshold; `analysis` is none too if the analyzer is off.
pub record Answers : Type 0 where
  pub rounds : List Round
  pub explanation : Option String
  pub create_error : Option String
  pub dispatch_error : Option String
  pub started : ℕ
  pub turns : List Turn
  pub result : Loaded
  pub evidence : Option ExtractEvidenceResponse
  pub analysis : Option Analysis
  pub gate : Option EscalationGateResponse
  pub confident : Bool

-- The arguments of runAttempt, and the id of the execution.
pub record Job : Type 0 where
  pub wf_id : String
  pub input : DeviceTestInput
  pub spec : TestSpec
  pub rule_version : String
  pub attempt : ℕ

pub data Call : Type 0 where
  create_task : TaskRow → Call
  dispatch : DispatchRequest → Call
  cancel_task : String → String → Call
  finish_task : FinishRequest → Call
  release_call : String → String → FailScope → Call
  save_metrics : String → String → String → Dict Float64 → Call
  save_rule_decision : String → Option Decision → Call
  save_analysis : String → String → String → Analysis → Call
  escalate : EscalationRequest → Call

-- `summary` is none while the attempt waits.
pub record Attempted : Type 0 where
  pub summary : Option TaskSummary
  pub calls : List Call

abbrev pub verdict_text : Verdict → String
verdict_text passed = "PASSED"
verdict_text test_failed = "TEST_FAILED"
verdict_text perf_regress = "PERF_REGRESSION"
verdict_text infra_error = "INFRA_ERROR"
verdict_text inconclusive = "INCONCLUSIVE"

abbrev pub category_text : Category → String
category_text infra = "INFRA"
category_text build = "BUILD"
category_text code = "CODE"
category_text model = "MODEL"
category_text delegate = "DELEGATE"
category_text device = "DEVICE"
category_text perf = "PERF"
category_text unknown = "UNKNOWN"
category_text (other t) = t

-- `d, _ := rules.Decide(...)`: on an error d is the zero Decision.
abbrev pub verdict_of : Option Decision → String
verdict_of none = ""
verdict_of (some d) = verdict_text d.verdict

abbrev pub decision_category : Option Decision → Category
decision_category none = unset
decision_category (some d) = d.category

abbrev pub reason_of : Option Decision → String
reason_of none = ""
reason_of (some d) = d.reason

abbrev pub retry_of : Option Decision → Bool
retry_of none = false
retry_of (some d) = d.retry

-- d.Verdict == rules.VerdictPassed
abbrev pub is_passed : Option Decision → Bool
is_passed none = false
is_passed (some d) = elim d.verdict [ passed ↦ true | _ ↦ false ]

abbrev pub infra_input : String → Input
infra_input reason = record {
  status = "FAILED";
  infra_reason = reason;
  exit_code = pos 0;
  cases_failed = pos 0;
  signatures_hit = [];
  signature_category = [];
}

abbrev pub result_input : TestSpec → TaskResultSignal → List String → Input
result_input spec res hits = record {
  status = res.status;
  infra_reason = "";
  exit_code = res.exit_code;
  cases_failed = res.cases_failed;
  signatures_hit = hits;
  signature_category = spec.signature_category;
}

pub data Acquisition : Type 0 where
  waiting : Acquisition
  got : Lease → Acquisition
  refused : String → Bool → Acquisition

abbrev explained : Option String → String
explained none = "no device available"
explained (some reason) = if reason == "" then "no device available" else reason

unfoldable pub acquire_loop : TestSpec → Option String → ℕ → List Round → Acquisition
acquire_loop spec explanation round [] = waiting
acquire_loop spec explanation round (r ∷ rs) =
    let next = acquire_loop spec explanation (round + 1) rs in
    elim r.answer [
      | acquire_failed e ↦ refused (str_append "acquire device: " e) true
      | leased l ↦ got l
      | none_free ↦
          if leb spec.device_wait_rounds round
          then refused (explained explanation) false
          else if r.woke
          then next
          else refused "canceled while waiting for device" false
    ]

abbrev pub escalatable_category : Category → Bool
escalatable_category code = true
escalatable_category model = true
escalatable_category delegate = true
escalatable_category device = true
escalatable_category _ = false

module _ (j : Job) (env : Answers) where
  abbrev pub task : String
  task = task_id_of j.wf_id j.spec.test_id j.attempt

  abbrev pub blank : String → TaskSummary
  blank device_name = record {
    test_id = j.spec.test_id;
    variant = j.spec.variant;
    task_id = task;
    attempt = j.attempt;
    device_name = device_name;
    verdict = "";
    category = "";
    reason = "";
    duration_sec = 0;
    cases_total = pos 0;
    cases_failed = pos 0;
    attachments = [];
    metrics = [];
    analysis = none;
    retryable = false;
  }

  -- The closure `infra`.
  abbrev pub infra_summary : String → String → Bool → TaskSummary
  infra_summary device_name reason retryable =
      let d = decide j.rule_version (infra_input reason) in
      record (blank device_name) {
        verdict = verdict_of d;
        category = category_text (decision_category d);
        reason = reason_of d;
        retryable = retryable && retry_of d;
      }

  abbrev pub finish_infra : String → Call
  finish_infra reason = finish_task (record {
    task_id = task;
    status = "FAILED";
    verdict = "INFRA_ERROR";
    category = "INFRA";
    reason = reason;
  })

  module _ (l : Lease) where
    abbrev pub release_at : FailScope → Call
    release_at scope = release_call l.device_id task scope

    abbrev pub gave_back : ReleaseSite → FailScope
    gave_back site = fail_scope site unset "" "" ""

    abbrev pub failed_infra : String → TaskSummary
    failed_infra reason = infra_summary (shown_device l) reason true

    -- The failure of the wait or of LoadResult.
    abbrev pub aborted : ReleaseSite → String → Attempted
    aborted site reason = record {
      summary = some (failed_infra reason);
      calls =
          cancel_task task l.client_base_url
          ∷ finish_infra reason
          ∷ release_at (gave_back site)
          ∷ [];
    }

    -- runAnalysis: the analysis of a task whose evidence could be extracted.
    abbrev pub analysis_of : Option ExtractEvidenceResponse → Option Analysis
    analysis_of none = none
    analysis_of (some ev) = env.analysis

    abbrev analysis_calls : Option ExtractEvidenceResponse → List Call
    analysis_calls none = []
    analysis_calls (some ev) = elim env.analysis [
      | none ↦ []
      | some a ↦ save_analysis task ev.digest ev.snapshot_id a ∷ []
    ]

    abbrev matched_of : Option ExtractEvidenceResponse → List String
    matched_of none = []
    matched_of (some ev) = ev.matched_signatures

    abbrev snapshot_of : Option ExtractEvidenceResponse → String
    snapshot_of none = ""
    snapshot_of (some ev) = ev.snapshot_id

    abbrev first_or : String → List String → String
    first_or text [] = text
    first_or text (s ∷ ss) = s

    abbrev escalation :
        TaskResultSignal
        → Option Decision
        → Option ExtractEvidenceResponse
        → Analysis
        → EscalationRequest
    escalation res d ev a = record {
      task_id = task;
      project = j.input.project;
      commit = j.input.commit;
      pipeline_id = j.input.pipeline_id;
      variant = j.spec.variant;
      verdict = verdict_of d;
      category = category_text (decision_category d);
      reason = reason_of d;
      signature_or_category =
          first_or (category_text (decision_category d))
            (merge_signature_hits res.signatures_hit (matched_of ev)).0;
      analysis = some a;
      evidence_snapshot_id = snapshot_of ev;
    }

    -- maybeEscalate.
    abbrev escalation_calls :
        TaskResultSignal → Option Decision → Option ExtractEvidenceResponse → List Call
    escalation_calls res d ev =
        if not (escalatable_category (decision_category d)) then [] else elim env.gate [
          | none ↦ []
          | some g ↦ elim (analysis_of ev) [
            | none ↦ []
            | some a ↦
                if not g.enabled || g.already_escalated || not env.confident
                then []
                else escalate (escalation res d ev a) ∷ []
          ]
        ]

    abbrev metrics_calls : TaskResultSignal → Option Decision → List Call
    metrics_calls res d = elim res.metrics [
      | [] ↦ []
      | m ∷ ms ↦
          if is_passed d
          then save_metrics task j.input.project j.spec.variant res.metrics ∷ []
          else []
    ]

    abbrev pub side_calls :
        TaskResultSignal → Option Decision → Option ExtractEvidenceResponse → List Call
    side_calls res d ev =
        metrics_calls res d
        ++ (save_rule_decision task d ∷ [])
        ++ (if is_passed d then [] else analysis_calls ev ++ escalation_calls res d ev)

    abbrev pub judged_summary :
        TaskResultSignal → Option Decision → Option ExtractEvidenceResponse → TaskSummary
    judged_summary res d ev = record (blank (shown_device l)) {
      verdict = verdict_of d;
      category = category_text (decision_category d);
      reason = reason_of d;
      duration_sec = res.duration_sec;
      cases_total = res.cases_total;
      cases_failed = res.cases_failed;
      attachments = res.attachments;
      metrics = res.metrics;
      retryable = retry_of d;
      analysis = if is_passed d then none else analysis_of ev;
    }

    abbrev pub finish_judged : TaskResultSignal → Option Decision → Call
    finish_judged res d = finish_task (record {
      task_id = task;
      status = res.status;
      verdict = verdict_of d;
      category = category_text (decision_category d);
      reason = reason_of d;
    })

    -- What follows the last decision.
    conclude : TaskResultSignal → Option Decision → Option ExtractEvidenceResponse → Attempted
    conclude res d ev = record {
      summary = some (judged_summary res d ev);
      calls =
          side_calls res d ev
          ++ finish_judged res d
            ∷ release_at (
                fail_scope site_terminal (decision_category d) res.status (verdict_of d)
                  res.failure_scope)
            ∷ [];
    }

    -- The decision, and the second one if the evidence has hits that the device did not report.
    judge : TaskResultSignal → Attempted
    unfolding conclude
    judge res =
        let d = decide j.rule_version (result_input j.spec res res.signatures_hit) in
        if is_passed d then conclude res d none else elim env.evidence [
          | none ↦ conclude res d none
          | some ev ↦
              let (merged, added) = merge_signature_hits res.signatures_hit ev.matched_signatures in
              if added
              then conclude res (decide j.rule_version (result_input j.spec res merged)) (some ev)
              else conclude res d (some ev)
        ]

    after_signal : Attempted
    unfolding judge
    after_signal = elim env.result [
      | load_failed e ↦ aborted site_load_result_failed (str_append "load result: " e)
      | no_row ↦ aborted site_load_result_failed "load result: no row in results table"
      | loaded rec ↦ judge rec.result
    ]

    after_dispatch : Attempted
    unfolding after_signal
    after_dispatch =
        elim (await_result task (env.started + j.spec.hard_timeout_sec * second)
          (env.started + j.spec.lease_seconds * second) env.turns) [
            | none ↦ record { summary = none; calls = [] }
            | some matched ↦ after_signal
            | some (gave_up site reason) ↦ aborted site reason
          ]

    abbrev pub preceded_by : Call → Attempted → Attempted
    preceded_by call a = record { summary = a.summary; calls = call ∷ a.calls }

    abbrev pub dispatch_call : Call
    dispatch_call = dispatch (record {
      task_id = task;
      idempotency_key = task;
      attempt = j.attempt;
      package_url = j.spec.pkg.url;
      package_sha256 = j.spec.pkg.sha256;
      manifest_digest = j.spec.pkg.manifest_digest;
      device_serial = l.serial;
      client_base_url = l.client_base_url;
      lease_id = l.lease_id;
      lease_generation = l.generation;
    })

    after_create : Attempted
    unfolding after_dispatch
    after_create = elim env.dispatch_error [
      | some e ↦ record {
        summary = some (failed_infra (str_append "dispatch: " e));
        calls =
            dispatch_call
            ∷ finish_infra "dispatch failed"
            ∷ release_at (gave_back site_dispatch_failed)
            ∷ [];
      }
      | none ↦ preceded_by dispatch_call after_dispatch
    ]

    abbrev pub create_call : Call
    create_call = create_task (record {
      task_id = task;
      workflow_id = j.wf_id;
      test_id = j.spec.test_id;
      attempt = j.attempt;
      idempotency_key = task;
      client_id = l.client_id;
      device_id = l.device_id;
      status = "DISPATCHING";
    })

    after_acquire : Attempted
    unfolding after_create
    after_acquire = elim env.create_error [
      | some e ↦ record {
        summary = some (failed_infra (str_append "create task: " e));
        calls = create_call ∷ release_at (gave_back site_create_task_failed) ∷ [];
      }
      | none ↦ preceded_by create_call after_create
    ]

  unfoldable pub run_attempt : Attempted
  unfolding after_acquire
  run_attempt = elim (acquire_loop j.spec env.explanation 0 env.rounds) [
    | waiting ↦ record { summary = none; calls = [] }
    | refused reason retryable ↦ record {
      summary = some (infra_summary "" reason retryable);
      calls = [];
    }
    | got l ↦ after_acquire l
  ]
