-- ===== src/Agent/Execute/Lifecycle.antt =====
-- The statuses that a run goes through (agent/internal/executor/executor.go, Execute).
pub mod Device
pub mod Whole
use hermes_ai_devops.Common.{
  ◌≡◌, refl, ◌∙◌, sym, ap, subst, Bool, true, false, Option, none, some, List, [], ◌∷◌,
  if◌then◌else◌,
}
use hermes_ai_devops.Agent.Text.{Text}
use hermes_ai_devops.Agent.Run.{
  Status, preparing, downloading, deploying, running, collecting, completed, failed, timeout,
  canceled, Failure, Agent, Result, ok, err, Act, pure, ◌>>=◌, ◌>>◌,
}
use hermes_ai_devops.Agent.Quiet.{statuses, hist, Quiet}
use hermes_ai_devops.Agent.Execute.{final_status, Staged, at_stage, transition, End}

-- The order of the statuses, written down apart from the code: which may come after which, and which
-- may be the first.
unfoldable pub may_follow : Option Status → Status → Bool
may_follow none downloading = true
may_follow none preparing = true
may_follow none failed = true
may_follow (some downloading) preparing = true
may_follow (some downloading) failed = true
may_follow (some preparing) deploying = true
may_follow (some preparing) failed = true
may_follow (some preparing) canceled = true
may_follow (some deploying) running = true
may_follow (some deploying) failed = true
may_follow (some deploying) canceled = true
may_follow (some running) collecting = true
may_follow (some running) failed = true
may_follow (some collecting) completed = true
may_follow (some collecting) timeout = true
may_follow (some collecting) failed = true
may_follow (some collecting) canceled = true
may_follow p s = false

abbrev pub latest : List Status → Option Status
latest [] = none
latest (s ∷ ss) = some s

-- Statuses, the last first, that come in that order.
pub data Trail : List Status → Type 0 where
  begin : Trail []
  go_on :
      {s : Status} {ss : List Status} → Trail ss → may_follow (latest ss) s ≡ true → Trail (s ∷ ss)

-- A run that may go on with the status.
abbrev pub Ready : Status → Agent → Type 0
Ready s a = Trail (hist a) × may_follow (latest (hist a)) s ≡ true

abbrev pub At : Option Status → Agent → Type 0
At l a = Trail (hist a) × latest (hist a) ≡ l

abbrev pub Outcome : {A : Type 0} → (A → Agent → Type 0) → Result Staged A → Agent → Type 0
Outcome q (ok x) b = q x b
Outcome q (err e) b = Ready failed b

abbrev pub Triple : {A : Type 0} → (Agent → Type 0) → Act Staged A → (A → Agent → Type 0) → Type 0
Triple p m q = (a : Agent) → p a → Outcome q (m a).0 (m a).1

module _ {A B : Type 0} (p : Agent → Type 0) (q : A → Agent → Type 0) (s : B → Agent → Type 0) where
  pub bind-Triple :
      (m : Act Staged A) (f : A → Act Staged B)
      → Triple p m q
      → ((x : A) → Triple (q x) (f x) s)
      → Triple p (m >>= f) s
  bind-Triple m f tm tf a pa = step (m a).0 (m a).1 (tm a pa)
    where
      step :
          (r : Result Staged A) (b : Agent)
          → Outcome q r b
          → (let c : Result Staged B × Agent = elim r as (λ x. Result Staged B × Agent) [
            | ok x ↦ f x b
            | err e ↦ (err e, b)
          ] in
              Outcome s c.0 c.1)
      step (ok x) b qb = tf x b qb
      step (err e) b qb = qb

module _ {A : Type 0} (l : Option Status) where
  pub stage-Triple :
      (stage : Text) (m : Act Failure A)
      → may_follow l failed ≡ true
      → Quiet m
      → Triple (At l) (at_stage stage m) (λ x. At l)
  stage-Triple stage m lf qm a (trail, la) = step (m a).0 (m a).1 (qm a)
    where
      step :
          (r : Result Failure A) (b : Agent)
          → hist b ≡ hist a
          → (let c : Result Staged A × Agent = elim r as (λ x. Result Staged A × Agent) [
            | ok x ↦ (ok x, b)
            | err e ↦ (err (stage, e), b)
          ] in
              Outcome (λ x. At l) c.0 c.1)
      step (ok x) b same = (subst Trail (sym same) trail, ap latest same ∙ la)
      step (err e) b same = (
        subst Trail (sym same) trail,
        ap (λ h. may_follow (latest h) failed) same ∙ ap (λ k. may_follow k failed) la ∙ lf,
      )

pub if-Triple :
    {A : Type 0} (p : Agent → Type 0) (q : A → Agent → Type 0) (b : Bool) (m k : Act Staged A)
    → Triple p m q
    → Triple p k q
    → Triple p (if b then m else k) q
if-Triple p q true m k tm tk = tm
if-Triple p q false m k tm tk = tk

-- A status that may come next.
pub enter-Triple :
    (l : Option Status) (s : Status)
    → may_follow l s ≡ true
    → Triple (At l) (transition s) (λ x. At (some s))
unfolding statuses
enter-Triple l s ls a (trail, la) = (go_on trail (ap (λ k. may_follow k s) la ∙ ls), refl)

-- The statuses that end a run without an error.
abbrev pub ends_well : Status → Bool
ends_well completed = true
ends_well timeout = true
ends_well canceled = true
ends_well s = false

-- An end of the pipeline without a failure.
abbrev pub Ended : End → Agent → Type 0
Ended e a = Ready e.final a × ends_well e.final ≡ true

pub ends-Triple :
    (l : Option Status) (e : End)
    → may_follow l e.final ≡ true
    → ends_well e.final ≡ true
    → Triple (At l) (pure e) Ended
ends-Triple l e le well a (trail, la) = ((trail, ap (λ k. may_follow k e.final) la ∙ le), well)

pub final_status-collecting : (c t : Bool) → may_follow (some collecting) (final_status c t) ≡ true
unfolding may_follow
final_status-collecting true t = refl
final_status-collecting false true = refl
final_status-collecting false false = refl

pub final_status-ends_well : (c t : Bool) → ends_well (final_status c t) ≡ true
final_status-ends_well true t = refl
final_status-ends_well false true = refl
final_status-ends_well false false = refl
