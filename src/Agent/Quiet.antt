-- ===== src/Agent/Quiet.antt =====
-- Acts that leave the status of the run alone.
pub mod Check
pub mod Device
use hermes_ai_devops.Common.{
  ◌≡◌, refl, ◌∙◌, Bool, true, false, Option, none, some, List, [], ◌∷◌, if◌then◌else◌,
}
use hermes_ai_devops.Agent.Run.{
  Status, Failure, Event, called, became, saved, wrote_summary, Agent, Result, ok, err, Act,
  raise_some, ◌>>=◌, ◌>>◌,
}

-- The statuses that a run has had, the last first.
unfoldable pub statuses : List Event → List Status
statuses [] = []
statuses (became s ∷ es) = s ∷ statuses es
statuses (called c ∷ es) = statuses es
statuses (saved f ∷ es) = statuses es
statuses (wrote_summary s ∷ es) = statuses es

abbrev pub hist : Agent → List Status
hist a = statuses a.events

abbrev pub Quiet : {E A : Type 0} → Act E A → Type 0
Quiet m = (a : Agent) → hist (m a).1 ≡ hist a

module _ {E A B : Type 0} where
  pub bind-Quiet :
      (m : Act E A) (f : A → Act E B) → Quiet m → ((x : A) → Quiet (f x)) → Quiet (m >>= f)
  bind-Quiet m f qm qf a = step (m a).0 (m a).1 ∙ qm a
    where
      step :
          (r : Result E A) (b : Agent)
          → hist (elim r as (λ q. Result E B × Agent) [ ok x ↦ f x b | err e ↦ (err e, b) ]).1
            ≡ hist b
      step (ok x) b = qf x b
      step (err e) b = refl

  pub then-Quiet : (m : Act E A) (k : Act E B) → Quiet m → Quiet k → Quiet (m >> k)
  then-Quiet m k qm qk = bind-Quiet m (λ _. k) qm (λ x. qk)

module _ {E A : Type 0} where
  pub if-Quiet : (b : Bool) (m k : Act E A) → Quiet m → Quiet k → Quiet (if b then m else k)
  if-Quiet true m k qm qk = qm
  if-Quiet false m k qm qk = qk

pub raise_some-Quiet : (e : Option Failure) → Quiet (raise_some e)
raise_some-Quiet none a = refl
raise_some-Quiet (some e) a = refl
