-- ===== src/Workflow/Attempt/Ends.antt =====
-- An attempt ends.
use Prim.Native.String.{◌++◌ as str_append}
use hermes_ai_devops.Common.{
  ℕ, ◌+◌, ◌*◌, ◌≡◌, ◌<◌, ◌≤◌, refl, inl, inr, Bool, true, false, Option, none, some, String, List,
  [], ◌∷◌, any, length, leb, arith, Option-cases,
}
use hermes_ai_devops.Store.State.{Lease, TaskResultSignal, second}
use hermes_ai_devops.Workflow.Types.{TestSpec, TaskSummary}
use hermes_ai_devops.Workflow.Scope.{site_load_result_failed}
use hermes_ai_devops.Workflow.Await.{Awaited, matched, gave_up}
use hermes_ai_devops.Workflow.Await.Ends.{await_result_ends}
use hermes_ai_devops.Workflow.Attempt.{
  Answers, Job, aborted, Loaded, load_failed, no_row, loaded, Round, Attempted, Acquisition,
  waiting, got, refused, acquire_loop, task, judge, conclude, after_signal, after_dispatch,
  after_create, after_acquire, run_attempt,
}

abbrev pub has_ended : Attempted → Bool
has_ended a = elim a.summary [ none ↦ false | some s ↦ true ]

abbrev is_settled : Acquisition → Bool
is_settled waiting = false
is_settled _ = true

acquire_loop_ends :
    (spec : TestSpec) (explanation : Option String) (round : ℕ) (rounds : List Round)
    → round ≤ spec.device_wait_rounds
    → spec.device_wait_rounds < round + length rounds
    → is_settled (acquire_loop spec explanation round rounds) ≡ true
unfolding acquire_loop
acquire_loop_ends spec explanation round [] low h = absurd (omega arith)
acquire_loop_ends spec explanation round (r ∷ rs) low h =
    ground (arith, acquire_loop_ends spec explanation (round + 1) rs)

module _ (j : Job) (env : Answers) (l : Lease) where
  judge_ends : (res : TaskResultSignal) → has_ended (judge j env l res) ≡ true
  unfolding judge conclude
  judge_ends res = ground arith

  after_signal_ends : has_ended (after_signal j env l) ≡ true
  unfolding after_signal
  after_signal_ends = go env.result
    where
      go :
          (r : Loaded)
          → has_ended (elim r [
            | load_failed e ↦ aborted j env l site_load_result_failed (str_append "load result: " e)
            | no_row ↦
                aborted j env l site_load_result_failed "load result: no row in results table"
            | loaded rec ↦ judge j env l rec.result
          ])
            ≡ true
      go (load_failed e) = refl
      go no_row = refl
      go (loaded rec) = judge_ends rec.result

  after_dispatch_ends :
      any (λ t. leb (env.started + j.spec.hard_timeout_sec * second) t.now) env.turns ≡ true
      → has_ended (after_dispatch j env l) ≡ true
  unfolding after_dispatch
  after_dispatch_ends h =
      let (a, e) =
        await_result_ends (task j env) (env.started + j.spec.hard_timeout_sec * second)
          (env.started + j.spec.lease_seconds * second) env.turns h in
      rw (e, after_dispatch) (go a)
    where
      go :
          (a : Awaited)
          → has_ended (elim a [
            | matched ↦ after_signal j env l
            | gave_up site reason ↦ aborted j env l site reason
          ])
            ≡ true
      go matched = after_signal_ends
      go (gave_up site reason) = refl

  after_acquire_ends :
      any (λ t. leb (env.started + j.spec.hard_timeout_sec * second) t.now) env.turns ≡ true
      → has_ended (after_acquire j env l) ≡ true
  unfolding after_acquire after_create
  after_acquire_ends h = ground (arith, after_dispatch_ends h)

ended-summary : (a : Attempted) → has_ended a ≡ true → (s : TaskSummary) × (a.summary ≡ some s)
ended-summary a h = elim (Option-cases a.summary) [
  | inl absent ↦ absurd (ground (arith, absent, h))
  | inr found ↦ found
]

-- An attempt ends with a summary, whatever its activities answer, once the acquire loop has had one
-- round more than it may wait, and the wait for the result a turn at the hard deadline or later.
pub run_attempt_ends :
    (j : Job) (env : Answers)
    → j.spec.device_wait_rounds < length env.rounds
    → any (λ t. leb (env.started + j.spec.hard_timeout_sec * second) t.now) env.turns ≡ true
    → (s : TaskSummary) × ((run_attempt j env).summary ≡ some s)
unfolding run_attempt
run_attempt_ends j env waited late = ended-summary (run_attempt j env) ended
  where
    go :
        (q : Acquisition)
        → is_settled q ≡ true
        → acquire_loop j.spec env.explanation 0 env.rounds ≡ q
        → has_ended (run_attempt j env) ≡ true
    go waiting h e = cc
    go (refused reason retryable) h e = rw (e, run_attempt)
    go (got l) h e = rw (e, run_attempt) (after_acquire_ends j env l late)

    ended : has_ended (run_attempt j env) ≡ true
    ended =
        go (acquire_loop j.spec env.explanation 0 env.rounds)
          (acquire_loop_ends j.spec env.explanation 0 env.rounds (omega arith) (omega arith)) refl
