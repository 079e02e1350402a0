-- ===== src/Workflow/Await/Ends.antt =====
-- When the wait for a result ends, and how.
use hermes_ai_devops.Common.{
  ℕ, ◌≡◌, ◌<◌, ◌⊎◌, inl, inr, String, Bool, true, false, ◌&&◌, Option, none, some, List, [], ◌∷◌,
  any, All, leb, ltb, arith, Option-cases, string_eq,
}
use hermes_ai_devops.Workflow.Scope.{ReleaseSite, site_hard_deadline, site_canceled}
use hermes_ai_devops.Workflow.Await.{
  LeaseCheck, lease_until, Turn, Awaited, matched, gave_up, is_signal, await_result,
}

-- The expiry that CheckLease reports, if any.
abbrev renewal : LeaseCheck → ℕ
renewal (lease_until e) = e
renewal _ = 0

abbrev has_ended : Option Awaited → Bool
has_ended none = false
has_ended (some a) = true

late_ends :
    (task_id : String) (deadline expiry : ℕ) (ts : List Turn)
    → any (λ t. leb deadline t.now) ts ≡ true
    → has_ended (await_result task_id deadline expiry ts) ≡ true
unfolding await_result
late_ends task_id deadline expiry [] h = cc
late_ends task_id deadline expiry (t ∷ ts) h =
    ground
      (arith, late_ends task_id deadline expiry ts, late_ends task_id deadline (renewal t.check) ts)

-- The wait ends once a turn of the loop is at the hard deadline or later, whatever the store answers
-- on the lease and whatever signals come.
pub await_result_ends :
    (task_id : String) (deadline expiry : ℕ) (ts : List Turn)
    → any (λ t. leb deadline t.now) ts ≡ true
    → (a : Awaited) × (await_result task_id deadline expiry ts ≡ some a)
await_result_ends task_id deadline expiry ts h =
    let ended = late_ends task_id deadline expiry ts h in
    elim (Option-cases (await_result task_id deadline expiry ts)) [
      | inl still ↦ absurd (ground (arith, still, ended))
      | inr found ↦ found
    ]

-- A wait that ends with a result has been woken by a signal of that very task before the deadline:
-- the signals of other tasks and of earlier attempts are not taken for it.
pub await_result_matched :
    (task_id : String) (deadline expiry : ℕ) (ts : List Turn)
    → await_result task_id deadline expiry ts ≡ some matched
    → any (λ t. is_signal task_id t && ltb t.now deadline) ts ≡ true
unfolding await_result
await_result_matched task_id deadline expiry [] h = cc
await_result_matched task_id deadline expiry (t ∷ ts) h = ground (
  arith,
  await_result_matched task_id deadline expiry ts,
  await_result_matched task_id deadline (renewal t.check) ts,
)

-- CheckLease finds the lease renewed.
abbrev pub Renewed : Turn → Type 0
Renewed t = (e : ℕ) × (t.check ≡ lease_until e) × (t.now < e)

-- While the client renews the lease before every check, the wait is given up at the hard deadline or
-- for a cancellation only.
pub await_result-Renewed :
    (task_id : String) (deadline expiry : ℕ) (ts : List Turn) (site : ReleaseSite) (reason : String)
    → All Renewed ts
    → await_result task_id deadline expiry ts ≡ some (gave_up site reason)
    → (site ≡ site_hard_deadline) ⊎ (site ≡ site_canceled)
unfolding await_result
await_result-Renewed task_id deadline expiry [] site reason renewed h = cc
await_result-Renewed task_id deadline expiry (t ∷ ts) site reason ((e, found, live), more) h =
    ground (
      arith,
      await_result-Renewed task_id deadline expiry ts site reason more,
      await_result-Renewed task_id deadline (renewal t.check) ts site reason more,
    )
