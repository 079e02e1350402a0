-- ===== src/Workflow/Attempt/Release.antt =====
-- The device of an attempt is given back once, whatever happens.
use Prim.Native.String.{◌++◌ as str_append}
use mathlib.Core.List.{append_assoc}
use hermes_ai_devops.Common.{
  ◌≡◌, ◌≢◌, refl, ◌⊎◌, inl, inr, String, Bool, true, false, Option, none, some, List, [], ◌∷◌, ◌++◌,
  any, any-append, arith, ◌+◌, ◌*◌, Option-cases, if◌then◌else◌, ◌∙◌, ap, string_eq, sym,
}
use hermes_ai_devops.Store.State.{Lease, FailScope, TaskResultSignal, second}
use hermes_ai_devops.Rules.{Decision, decide}
use hermes_ai_devops.Workflow.Types.{TaskSummary, ExtractEvidenceResponse}
use hermes_ai_devops.Workflow.Scope.{
  ReleaseSite, site_terminal, site_load_result_failed, fail_scope,
}
use hermes_ai_devops.Workflow.Signatures.{merge_signature_hits}
use hermes_ai_devops.Workflow.Await.{Awaited, await_result, matched, gave_up}
use hermes_ai_devops.Workflow.Attempt.{
  Answers, Job, Call, release_call, save_rule_decision, Attempted, Acquisition, waiting, got,
  refused, acquire_loop, task, aborted, side_calls, analysis_calls, escalation_calls, metrics_calls,
  finish_judged, conclude, judge, after_signal, after_dispatch, preceded_by, after_create,
  after_acquire, run_attempt, is_passed, load_failed, no_row, loaded, Loaded, decision_category,
  verdict_of, result_input,
}

abbrev pub is_release : Call → Bool
is_release (release_call device_id task_id scope) = true
is_release _ = false

-- Nothing is released while the attempt waits; an attempt that has ended released the device for the
-- task in its last call, and in no other.
abbrev pub Accounts : String → String → Attempted → Type 0
Accounts device_id task_id a =
    ((a.summary ≡ none) × (any is_release a.calls ≡ false))
    ⊎ (((s : TaskSummary) × (a.summary ≡ some s))
        × ((before : List Call) × (scope : FailScope) × (a.calls
              ≡ before ++ release_call device_id task_id scope ∷ [])
            × (any is_release before ≡ false)))

quiet-append :
    (xs ys : List Call)
    → any is_release xs ≡ false
    → any is_release ys ≡ false
    → any is_release (xs ++ ys) ≡ false
quiet-append xs ys e f = any-append is_release xs ys ∙ ground (arith, e, f)

if-quiet :
    (b : Bool) (xs ys : List Call)
    → any is_release xs ≡ false
    → any is_release ys ≡ false
    → any is_release (if b then xs else ys) ≡ false
if-quiet true xs ys e f = e
if-quiet false xs ys e f = f

module _ (j : Job) (env : Answers) (l : Lease) where
  abbrev Fair : Attempted → Type 0
  Fair = Accounts l.device_id (task j env)

  if-Fair : (b : Bool) (x y : Attempted) → Fair x → Fair y → Fair (if b then x else y)
  if-Fair true x y p q = p
  if-Fair false x y p q = q

  preceded-Accounts :
      (c : Call) (a : Attempted) → is_release c ≡ false → Fair a → Fair (preceded_by j env l c a)
  preceded-Accounts c a e (inl (w, none_yet)) = inl (w, ground (arith, e, none_yet))
  preceded-Accounts c a e (inr (s, (before, scope, same, clean))) =
      inr (s, (c ∷ before, scope, ap (◌∷◌ c) same, ground (arith, e, clean)))

  metrics_quiet :
      (res : TaskResultSignal) (d : Option Decision)
      → any is_release (metrics_calls j env l res d) ≡ false
  metrics_quiet res d = ground arith

  analysis_quiet :
      (ev : Option ExtractEvidenceResponse) → any is_release (analysis_calls j env l ev) ≡ false
  analysis_quiet none = refl
  analysis_quiet (some ev) = ground arith

  escalation_quiet :
      (res : TaskResultSignal) (d : Option Decision) (ev : Option ExtractEvidenceResponse)
      → any is_release (escalation_calls j env l res d ev) ≡ false
  escalation_quiet res d ev = ground arith

  side_calls_quiet :
      (res : TaskResultSignal) (d : Option Decision) (ev : Option ExtractEvidenceResponse)
      → any is_release (side_calls j env l res d ev) ≡ false
  side_calls_quiet res d ev =
      let after = analysis_calls j env l ev ++ escalation_calls j env l res d ev in
      let tail = if is_passed d then [] else after in
      let rule = save_rule_decision (task j env) d ∷ [] in
      quiet-append (metrics_calls j env l res d ++ rule) tail
        (quiet-append (metrics_calls j env l res d) rule (metrics_quiet res d) refl)
        (if-quiet (is_passed d) [] after refl (
          quiet-append (analysis_calls j env l ev) (escalation_calls j env l res d ev)
            (analysis_quiet ev) (escalation_quiet res d ev)))

  conclude-Fair :
      (res : TaskResultSignal) (d : Option Decision) (ev : Option ExtractEvidenceResponse)
      → Fair (conclude j env l res d ev)
  unfolding conclude
  conclude-Fair res d ev =
      let before = side_calls j env l res d ev ++ finish_judged j env l res d ∷ [] in
      inr (
        (_, refl),
        (
          before,
          fail_scope site_terminal (decision_category d) res.status (verdict_of d)
              res.failure_scope,
          sym (append_assoc (side_calls j env l res d ev) (finish_judged j env l res d ∷ []) _),
          any-append is_release (side_calls j env l res d ev) (finish_judged j env l res d ∷ [])
              ∙ ground (arith, side_calls_quiet res d ev),
        ),
      )

  abbrev first_decision : TaskResultSignal → Option Decision
  first_decision res = decide j.rule_version (result_input j.spec res res.signatures_hit)

  judge-Fair : (res : TaskResultSignal) → Fair (judge j env l res)
  unfolding judge
  judge-Fair res =
      if-Fair (is_passed (first_decision res)) _ _ (conclude-Fair res (first_decision res) none)
        (go env.evidence)
    where
      go :
          (o : Option ExtractEvidenceResponse)
          → Fair (elim o [
            | none ↦ conclude j env l res (first_decision res) none
            | some ev ↦
                let (merged, added) =
                  merge_signature_hits res.signatures_hit ev.matched_signatures in
                if added
                then conclude j env l res
                    (decide j.rule_version (result_input j.spec res merged))
                    (some ev)
                else conclude j env l res (first_decision res) (some ev)
          ])
      go none = conclude-Fair res (first_decision res) none
      go (some ev) =
          let hits = merge_signature_hits res.signatures_hit ev.matched_signatures in
          if-Fair hits.1 _ _ (conclude-Fair res _ (some ev))
            (conclude-Fair res (first_decision res) (some ev))

  aborted-Fair : (site : ReleaseSite) (reason : String) → Fair (aborted j env l site reason)
  aborted-Fair site reason = inr ((_, refl), (_ ∷ _ ∷ [], _, refl, refl))

  after_signal-Fair : Fair (after_signal j env l)
  unfolding after_signal
  after_signal-Fair = go env.result
    where
      go :
          (r : Loaded)
          → Fair (elim r [
            | load_failed e ↦ aborted j env l site_load_result_failed (str_append "load result: " e)
            | no_row ↦
                aborted j env l site_load_result_failed "load result: no row in results table"
            | loaded rec ↦ judge j env l rec.result
          ])
      go (load_failed e) = aborted-Fair _ _
      go no_row = aborted-Fair _ _
      go (loaded rec) = judge-Fair rec.result

  abbrev awaited : Option Awaited
  awaited =
      await_result (task j env) (env.started + j.spec.hard_timeout_sec * second)
        (env.started + j.spec.lease_seconds * second) env.turns

  after_dispatch-Fair : Fair (after_dispatch j env l)
  unfolding after_dispatch
  after_dispatch-Fair = go awaited
    where
      go :
          (o : Option Awaited)
          → Fair (elim o [
            | none ↦ record { summary = none; calls = [] }
            | some matched ↦ after_signal j env l
            | some (gave_up site reason) ↦ aborted j env l site reason
          ])
      go none = inl (refl, refl)
      go (some matched) = after_signal-Fair
      go (some (gave_up site reason)) = aborted-Fair site reason

  after_create-Fair : Fair (after_create j env l)
  unfolding after_create
  after_create-Fair = elim (Option-cases env.dispatch_error) [
    | inl ok ↦ rw ok (preceded-Accounts _ _ refl after_dispatch-Fair)
    | inr (e, failed) ↦ rw failed (inr ((_, refl), (_ ∷ _ ∷ [], _, refl, refl)))
  ]

  after_acquire-Fair : Fair (after_acquire j env l)
  unfolding after_acquire
  after_acquire-Fair = elim (Option-cases env.create_error) [
    | inl ok ↦ rw ok (preceded-Accounts _ _ refl after_create-Fair)
    | inr (e, failed) ↦ rw failed (inr ((_, refl), (_ ∷ [], _, refl, refl)))
  ]

-- An attempt without a lease, one that waits or that was refused, makes no call that writes. An attempt
-- with a lease releases nothing while it waits, and once it has ended it has released the leased device for its task in its last call and
-- nothing before, on every path, errors included.
pub run_attempt-releases :
    (j : Job) (env : Answers)
    → (((l : Lease) → acquire_loop j.spec env.explanation 0 env.rounds ≢ got l)
        × ((run_attempt j env).calls ≡ []))
      ⊎ ((l : Lease) × (acquire_loop j.spec env.explanation 0 env.rounds ≡ got l)
          × Accounts l.device_id (task j env) (run_attempt j env))
unfolding run_attempt
run_attempt-releases j env = go (acquire_loop j.spec env.explanation 0 env.rounds) refl
  where
    go :
        (q : Acquisition)
        → acquire_loop j.spec env.explanation 0 env.rounds ≡ q
        → (((l : Lease) → acquire_loop j.spec env.explanation 0 env.rounds ≢ got l)
            × ((run_attempt j env).calls ≡ []))
          ⊎ ((l : Lease) × (acquire_loop j.spec env.explanation 0 env.rounds ≡ got l)
              × Accounts l.device_id (task j env) (run_attempt j env))
    go waiting e = inl ((λ l same. cc), rw (e, run_attempt))
    go (refused reason retryable) e = inl ((λ l same. cc), rw (e, run_attempt))
    go (got l) e = inr (l, e, rw (e, run_attempt) (after_acquire-Fair j env l))
