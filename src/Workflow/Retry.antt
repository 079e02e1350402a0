-- ===== src/Workflow/Retry.antt =====
-- The mechanical retries of a test (runtime/internal/workflow/devicetest.go, runTest). `envs` holds
-- what the activities answer in each attempt.
use hermes_ai_devops.Workflow.Attempt.Ends.{run_attempt_ends}
use hermes_ai_devops.Store.State.{second}
use hermes_ai_devops.Common.{
  ◌<◌, ◌*◌, any, length, leb, ℕ, zero, suc, ◌+◌, ◌≤◌, ◌≡◌, refl, ◌⊎◌, inl, inr, true, false, not,
  none, some, ◌++◌, arith, Option-cases, Bool-cases, if◌then◌else◌, nat_eq, ◌∙◌, ap,
}
use hermes_ai_devops.Workflow.Types.{TaskSummary}
use hermes_ai_devops.Workflow.Attempt.{Answers, Job, Attempted, run_attempt}

abbrev pub nth_attempt : Job → (ℕ → Answers) → ℕ → Attempted
nth_attempt j envs attempt = run_attempt (record j { attempt = attempt }) (envs attempt)

-- The loop from `attempt` on, where `left` attempts may follow it.
unfoldable pub retry_from : Job → (ℕ → Answers) → ℕ → ℕ → Attempted
retry_from j envs attempt zero = nth_attempt j envs attempt
retry_from j envs attempt (suc left) =
    let rest = retry_from j envs (attempt + 1) left in
    let a = nth_attempt j envs attempt in
    elim a.summary [
      | none ↦ a
      | some s ↦
          if not s.retryable
          then a
          else record { summary = rest.summary; calls = a.calls ++ rest.calls }
    ]

unfoldable pub run_test : Job → (ℕ → Answers) → Attempted
unfolding retry_from
run_test j envs = retry_from j envs 1 j.spec.max_infra_retries

-- The `n` attempts from `attempt` on have ended, each one retryable.
abbrev pub Retried : Job → (ℕ → Answers) → ℕ → ℕ → Type 0
Retried j envs attempt zero = Unit {0}
Retried j envs attempt (suc n) =
    ((s : TaskSummary) × ((nth_attempt j envs attempt).summary ≡ some s) × (s.retryable ≡ true))
    × Retried j envs (attempt + 1) n

-- The summary is the one of the attempt after `n` retries, of which `left` are allowed.
abbrev pub LastOf : Job → (ℕ → Answers) → ℕ → ℕ → TaskSummary → Type 0
LastOf j envs attempt left s =
    (n : ℕ) × (n ≤ left)
    × Retried j envs attempt n
    × ((nth_attempt j envs (attempt + n)).summary ≡ some s)
    × ((s.retryable ≡ false) ⊎ (n ≡ left))

retry_from-last :
    (j : Job) (envs : ℕ → Answers) (attempt left : ℕ) (s : TaskSummary)
    → (retry_from j envs attempt left).summary ≡ some s
    → LastOf j envs attempt left s
unfolding retry_from
retry_from-last j envs attempt zero s h =
    let same : attempt + 0 ≡ attempt = omega arith in
    (0, omega arith, tt, ap (λ k. (nth_attempt j envs k).summary) same ∙ h, inr refl)
retry_from-last j envs attempt (suc left) s h =
    elim (Option-cases (nth_attempt j envs attempt).summary) [
      | inl absent ↦ absurd (ground (arith, absent, h))
      | inr (q, e) ↦ elim (Bool-cases q.retryable) [
        | inr final ↦
            let first : attempt + 0 ≡ attempt = omega arith in
            let same : q ≡ s = ground (arith, e, final, h) in
            (
              0,
              omega arith,
              tt,
              ap (λ k. (nth_attempt j envs k).summary) first ∙ e ∙ ap some same,
              inl (ground (arith, same, final)),
            )
        | inl again ↦
            let down : (retry_from j envs (attempt + 1) left).summary ≡ some s =
              ground (arith, e, again, h) in
            let (n, few, before, last, why) = retry_from-last j envs (attempt + 1) left s down in
            let shift : attempt + suc n ≡ attempt + 1 + n = omega arith in
            (
              suc n,
              omega arith,
              ((q, e, again), before),
              ap (λ k. (nth_attempt j envs k).summary) shift ∙ last,
              ground (arith, why),
            )
      ]
    ]

-- The summary of a test is that of its last attempt: every attempt before it ended with a failure
-- that may be retried, there are no more than the allowed retries of them, and the last one is not
-- retryable or the retries are used up.
pub run_test-last :
    (j : Job) (envs : ℕ → Answers) (s : TaskSummary)
    → (run_test j envs).summary ≡ some s
    → LastOf j envs 1 j.spec.max_infra_retries s
unfolding run_test
run_test-last j envs s h = retry_from-last j envs 1 j.spec.max_infra_retries s h

-- The attempt's activities answer until it can end: one acquire round more than it may wait, and a
-- turn of the wait at the hard deadline or later.
pub record IsEnough (j : Job) (env : Answers) : Type 0 where
  pub waited : j.spec.device_wait_rounds < length env.rounds
  pub late : any (λ t. leb (env.started + j.spec.hard_timeout_sec * second) t.now) env.turns ≡ true

retry_from_ends :
    (j : Job) (envs : ℕ → Answers) (attempt left : ℕ)
    → ((k : ℕ) → IsEnough j (envs k))
    → (s : TaskSummary) × ((retry_from j envs attempt left).summary ≡ some s)
unfolding retry_from
retry_from_ends j envs attempt zero enough =
    run_attempt_ends (record j { attempt = attempt }) (envs attempt) (enough attempt).waited
      (enough attempt).late
retry_from_ends j envs attempt (suc left) enough =
    let (s, ended) =
      run_attempt_ends (record j { attempt = attempt }) (envs attempt) (enough attempt).waited
        (enough attempt).late in
    let (q, more) = retry_from_ends j envs (attempt + 1) left enough in
    elim (Bool-cases s.retryable) [
      | inl again ↦ (q, ground (arith, ended, again, more))
      | inr final ↦ (s, ground (arith, ended, final))
    ]

-- A test ends with a summary, whatever its activities answer, if in each attempt they answer long
-- enough for the acquire loop to run out and for the hard deadline to pass.
pub run_test_ends :
    (j : Job) (envs : ℕ → Answers)
    → ((k : ℕ) → IsEnough j (envs k))
    → (s : TaskSummary) × ((run_test j envs).summary ≡ some s)
unfolding run_test
run_test_ends j envs enough = retry_from_ends j envs 1 j.spec.max_infra_retries enough
