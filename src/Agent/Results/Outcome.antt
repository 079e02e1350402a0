-- ===== src/Agent/Results/Outcome.antt =====
-- What becomes of a result (agent/internal/reporter/result.go, Report).
use hermes_ai_devops.Common.{
  ℕ, zero, suc, ◌+◌, ◌-◌, ◌≤◌, ◌<◌, ◌≡◌, ◌⊎◌, ◌≢◌, refl, sym, ap, subst, ◌∙◌, String, Bool, true,
  false, Option, none, some, List, [], ◌∷◌, ◌==◌, nat_eq, arith, inl, inr, Bool-cases, Option-cases,
}
use hermes_ai_devops.Agent.Journal.{is_terminal, Task, Journal, get_task, mark_result_recorded}
use hermes_ai_devops.Agent.Reporter.{PostError, retryable}
use hermes_ai_devops.Agent.Results.{
  Attachment, Result, Files, build, Verdict, recorded, rejected, exhausted, stopped, Turn,
  or_default, Sending, stop_at, doubled, send_from, send, Report, is_recorded, conclude, report,
}

abbrev Failed : Option PostError → Bool → Type 0
Failed error again = (e : PostError) × (error ≡ some e) × (retryable e ≡ again)

-- The answer to the last attempt, by how the loop ends; it is exhausted with the last one.
abbrev pub Fits : Verdict → Option PostError → ℕ → ℕ → Type 0
Fits recorded error n last = error ≡ none
Fits rejected error n last = Failed error false
Fits exhausted error n last = Failed error true × (n ≡ last)
Fits stopped error n last = Failed error true
Fits v error n last = ⊥

-- The attempts from `n` to the last one that was made: all before that one may be repeated.
abbrev pub Made : Turn → Result → ℕ → ℕ → Sending → Type 0
Made c res n last s =
    (n ≤ s.posts)
    × (s.posts ≤ last)
    × Fits s.verdict (c.reply s.posts res) s.posts last
    × ((k : ℕ) → n ≤ k → k < s.posts → Failed (c.reply k res) true)

stopped_at-Made :
    (c : Turn) (res : Result) (n last : ℕ) {s : Sending} {v : Verdict} {waits : List ℕ}
    → s ≡ record { verdict = v; posts = n; waits = waits }
    → n ≤ last
    → Fits v (c.reply n res) n last
    → Made c res n last s
stopped_at-Made c res n last e le fits =
    subst (Made c res n last) (sym e) (omega arith, le, fits, λ k h l. absurd (omega arith))

send_from-Made :
    (c : Turn) (res : Result) (limit left n last backoff : ℕ)
    → n + left ≡ last
    → Made c res n last (send_from c res limit left n backoff)
unfolding send_from
send_from-Made c res limit zero n last backoff h = elim (Option-cases (c.reply n res)) [
  | inl accepted ↦
      let e : send_from c res limit 0 n backoff ≡ stop_at recorded n = ground (arith, accepted) in
      stopped_at-Made c res n last e (omega arith) accepted
  | inr (x, failed) ↦ elim (Bool-cases (retryable x)) [
    | inl again ↦
        let e : send_from c res limit 0 n backoff ≡ stop_at exhausted n =
          ground (arith, failed, again) in
        stopped_at-Made c res n last e (omega arith) ((x, failed, again), omega arith)
    | inr never ↦
        let e : send_from c res limit 0 n backoff ≡ stop_at rejected n =
          ground (arith, failed, never) in
        stopped_at-Made c res n last e (omega arith) (x, failed, never)
  ]
]
send_from-Made c res limit (suc left) n last backoff h = elim (Option-cases (c.reply n res)) [
  | inl accepted ↦
      let e : send_from c res limit (suc left) n backoff ≡ stop_at recorded n =
        ground (arith, accepted) in
      stopped_at-Made c res n last e (omega arith) accepted
  | inr (x, failed) ↦ elim (Bool-cases (retryable x)) [
    | inr never ↦
        let e : send_from c res limit (suc left) n backoff ≡ stop_at rejected n =
          ground (arith, failed, never) in
        stopped_at-Made c res n last e (omega arith) (x, failed, never)
    | inl again ↦ elim (Bool-cases (c.done n)) [
      | inl over ↦
          let e : send_from c res limit (suc left) n backoff
              ≡ record { verdict = stopped; posts = n; waits = backoff ∷ [] } =
            ground (arith, failed, again, over) in
          stopped_at-Made c res n last e (omega arith) (x, failed, again)
      | inr more ↦
          let rest = send_from c res limit left (n + 1) (doubled backoff limit) in
          let e : send_from c res limit (suc left) n backoff
              ≡ record rest { waits = backoff ∷ rest.waits } =
            ground (arith, failed, again, more) in
          let made =
            send_from-Made c res limit left (n + 1) last (doubled backoff limit) (omega arith) in
          subst (Made c res n last) (sym e) (
            omega (arith, made.0),
            made.1,
            made.2,
            λ k le lt. before x failed again rest made.3 k le lt (Bool-cases (k == n)),
          )
    ]
  ]
]
  where
    before :
        (x : PostError)
        → c.reply n res ≡ some x
        → retryable x ≡ true
        → (rest : Sending) → ((k : ℕ) → n + 1 ≤ k → k < rest.posts → Failed (c.reply k res) true)
        → (k : ℕ) → n ≤ k
        → k < rest.posts
        → ((k == n) ≡ true) ⊎ ((k == n) ≡ false)
        → Failed (c.reply k res) true
    before x failed again rest made k le lt (inl same) =
        let e : k ≡ n = ground (arith, same) in (x, ap (λ m. c.reply m res) e ∙ failed, again)
    before x failed again rest made k le lt (inr other) = made k (ground (arith, le, other)) lt

abbrev pub attempts : Turn → ℕ
attempts c = or_default c.max_attempts 5

-- Nothing was sent, or the result of a task that is over and has no recorded result was: it is
-- recorded exactly if Runtime accepts it and the mark can be written.
abbrev pub Unsent : Journal → Report → Type 0
Unsent j r = (r.posts ≡ 0) × (r.journal ≡ j) × (r.result ≡ none) × (is_recorded r.verdict ≡ false)

abbrev pub Recorded : Turn → Journal → String → Result → Report → Type 0
Recorded c j id res r =
    (r.verdict ≡ recorded)
    × (c.reply r.posts res ≡ none)
    × (c.mark_fails ≡ false)
    × (r.journal ≡ (mark_result_recorded j id).0)

abbrev pub Unrecorded : Turn → Journal → Result → Report → Type 0
Unrecorded c j res r =
    (is_recorded r.verdict ≡ false)
    × (r.journal ≡ j)
    × (c.reply r.posts res ≡ none → c.mark_fails ≡ true)
    × (r.verdict ≡ exhausted → r.posts ≡ attempts c)

abbrev pub Posted : Turn → Files → Journal → String → List Attachment → Report → Type 0
Posted c files j id att r =
    (t : Task) × (res : Result) × (get_task j id ≡ some t)
    × (is_terminal t.state ≡ true)
    × (t.result_recorded ≡ false)
    × (build files t att ≡ some res)
    × (r.result ≡ some res)
    × (1 ≤ r.posts)
    × (r.posts ≤ attempts c)
    × ((k : ℕ) → 1 ≤ k → k < r.posts → Failed (c.reply k res) true)
    × (Recorded c j id res r ⊎ Unrecorded c j res r)

send-Made : (c : Turn) (res : Result) → Made c res 1 (attempts c) (send c res)
unfolding send
send-Made c res =
    send_from-Made c res (or_default c.max_backoff 30000) (attempts c - 1) 1 (attempts c)
      (or_default c.initial_backoff 1000) (ground arith)

Fits-recorded :
    (v : Verdict) (error : Option PostError) (n last : ℕ)
    → Fits v error n last
    → is_recorded v ≡ true
    → (error ≡ none) × (v ≡ recorded)
Fits-recorded recorded error n last h k = (h, refl)
Fits-recorded v error n last h k = absurd (ground (arith, k))

Fits-unrecorded :
    (v : Verdict) (error : Option PostError) (n last : ℕ)
    → Fits v error n last
    → is_recorded v ≡ false
    → (error ≢ none) × (v ≡ exhausted → n ≡ last)
Fits-unrecorded recorded error n last h k = absurd (ground (arith, k))
Fits-unrecorded rejected error n last (e, failed, again) k = (λ z. cc, λ z. ground (arith, z))
Fits-unrecorded exhausted error n last ((e, failed, again), same) k = (λ z. cc, λ z. same)
Fits-unrecorded stopped error n last (e, failed, again) k = (λ z. cc, λ z. ground (arith, z))
Fits-unrecorded v error n last h k = absurd h

conclude-Recorded :
    (c : Turn) (j : Journal) (id : String) (res : Result) (s : Sending)
    → is_recorded s.verdict ≡ true
    → c.reply s.posts res ≡ none
    → (let r = conclude c j id res s in
        (r.posts ≡ s.posts)
        × (r.result ≡ some res)
        × (Recorded c j id res r ⊎ Unrecorded c j res r))
unfolding conclude
conclude-Recorded c j id res s good accepted = elim (Bool-cases c.mark_fails) [
  | inr works ↦ rw (good, works) (refl, refl, inl (refl, accepted, refl, refl))
  | inl fails ↦ rw (good, fails) (refl, refl, inr (refl, refl, λ z. refl, λ z. ground (arith, z)))
]

conclude-Unrecorded :
    (c : Turn) (j : Journal) (id : String) (res : Result) (s : Sending)
    → is_recorded s.verdict ≡ false
    → c.reply s.posts res ≢ none
    → (s.verdict ≡ exhausted → s.posts ≡ attempts c)
    → (let r = conclude c j id res s in
        (r.posts ≡ s.posts) × (r.result ≡ some res) × Unrecorded c j res r)
unfolding conclude
conclude-Unrecorded c j id res s bad refused last =
    rw bad (refl, refl, (bad, refl, λ z. absurd (refused z), last))

conclude-Posted :
    (c : Turn) (files : Files) (j : Journal) (id : String) (att : List Attachment) (t : Task)
    (res : Result)
    → get_task j id ≡ some t
    → is_terminal t.state ≡ true
    → t.result_recorded ≡ false
    → build files t att ≡ some res
    → Posted c files j id att (conclude c j id res (send c res))
conclude-Posted c files j id att t res found over open_yet built =
    let s = send c res in
    let made = send-Made c res in
    let (posts, result, how) =
      elim (Bool-cases (is_recorded s.verdict))
        as (λ _.
          ((conclude c j id res s).posts ≡ s.posts)
          × ((conclude c j id res s).result ≡ some res)
          × (Recorded c j id res (conclude c j id res s)
              ⊎ Unrecorded c j res (conclude c j id res s))) [
                | inl good ↦
                    conclude-Recorded c j id res s good
                      (Fits-recorded s.verdict (c.reply s.posts res) s.posts (attempts c) made.2
                        good).0
                | inr bad ↦
                    let fits =
                      Fits-unrecorded s.verdict (c.reply s.posts res) s.posts (attempts c) made.2
                        bad in
                    let (p, q, u) = conclude-Unrecorded c j id res s bad fits.0 fits.1 in
                    (p, q, inr u)
              ] in
    (
      t,
      res,
      found,
      over,
      open_yet,
      built,
      result,
      rw posts made.0,
      rw posts made.1,
      λ k le lt. made.3 k le (rw posts at lt),
      how,
    )

-- A report sends nothing and changes nothing; or the task is over, its result is not yet recorded
-- and could be built, and it is posted once at least and as often as is allowed at most, each time
-- but the last with an error that may be retried. It is recorded if Runtime accepts the last post and
-- the mark can be written, and otherwise nothing is changed; the attempts are exhausted only when
-- there were as many as are allowed.
pub report_outcome :
    (c : Turn) (files : Files) (j : Journal) (id : String) (att : List Attachment)
    → Unsent j (report c files j id att) ⊎ Posted c files j id att (report c files j id att)
unfolding report
report_outcome c files j id att = elim (Bool-cases c.get_fails) [
  | inl fails ↦ inl (rw fails (refl, refl, refl, refl))
  | inr reads ↦ elim (Option-cases (get_task j id)) [
    | inl gone ↦ inl (rw (reads, gone) (refl, refl, refl, refl))
    | inr (t, found) ↦ elim (Bool-cases (is_terminal t.state)) [
      | inr live ↦ inl (rw (reads, found, live) (refl, refl, refl, refl))
      | inl over ↦ elim (Bool-cases t.result_recorded) [
        | inl old ↦ inl (rw (reads, found, over, old) (refl, refl, refl, refl))
        | inr open_yet ↦ elim (Option-cases (build files t att)) [
          | inl unbuilt ↦ inl (rw (reads, found, over, open_yet, unbuilt) (refl, refl, refl, refl))
          | inr (res, built) ↦
              let e : report c files j id att ≡ conclude c j id res (send c res) =
                ground (arith, reads, found, over, open_yet, built) in
              inr (
                subst (Posted c files j id att) (sym e)
                  (conclude-Posted c files j id att t res found over open_yet built))
        ]
      ]
    ]
  ]
]
