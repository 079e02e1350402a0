-- ===== src/Agent/Reporter/Rounds.antt =====
-- The rounds of the loop over the unreported events (agent/internal/reporter/events.go, drain).
use hermes_ai_devops.Common.{
  ℕ, ◌≡◌, refl, subst, ◌∙◌, String, Bool, true, false, not, ◌&&◌, ◌||◌, some, List, [], ◌∷◌, any,
  filter, contains, All, Memᴰ, nat_eq, string_eq, eq_iff, arith, inl, inr, Bool-cases, Option-cases,
}
use hermes_ai_devops.Agent.Journal.{Event, Journal, is_event, unreported_events}
use hermes_ai_devops.Agent.Reporter.{Reporter, Reply, Faults, Progress, key_of, drain_one}
use hermes_ai_devops.Agent.Reporter.Queue.{
  any-sort_events, any-filter, Ascending, sort_events-Ascending,
}
use hermes_ai_devops.Agent.Reporter.Order.{
  System, reload, act, settled, Before, Due, Due-mono, Ascending-Due, done_or_blocked, IsOrdered,
}
use hermes_ai_devops.Agent.Reporter.Told.{ahead, looked, block-IsOrdered, settle-IsOrdered}
use hermes_ai_devops.Agent.Reporter.Standing.{
  earlier_stand, All-of_mem, All-filter, All-sort_events,
}

key_of-blocked :
    (f : Faults) (j : Journal) (p q : Progress) (e : Event) (key : String)
    → key_of f j p e ≡ some (key, q)
    → p.blocked ≡ q.blocked
key_of-blocked f j p q e key h = ground (arith, h)

same_blocked :
    (r : Reporter) (p q : Progress) (e : Event) (es : List Event)
    → p.blocked ≡ q.blocked
    → IsOrdered (ahead r p e es)
    → IsOrdered (ahead r q e es)
same_blocked r p q e es same h = record {
  history = h.history;
  told = h.told;
  ordered = h.ordered;
  due = subst (λ b. Due (e ∷ es) (done_or_blocked r.sent b)) same h.due;
}

pub drain_one-IsOrdered :
    (f : Faults) (reply : Reply) (r : Reporter) (p : Progress) (e : Event) (es : List Event)
    → IsOrdered (ahead r p e es)
    → IsOrdered (looked (drain_one f reply r p e) es)
unfolding drain_one
drain_one-IsOrdered f reply r p e es h = elim (Bool-cases (contains e.task_id p.blocked)) [
  | inl waits ↦ rw waits (subst IsOrdered refl (drop r p e es waits h))
  | inr free ↦ rw free (elim (Option-cases (key_of f r.journal p e)) [
    | inl gone ↦ rw gone (block-IsOrdered r p e es h)
    | inr ((key, q), got) ↦
        let same = key_of-blocked f r.journal p q e key got in
        rw got (
          settle-IsOrdered f reply r q e es key (rw (← same) free) (same_blocked r p q e es same h))
  ])
]
  where
    drop :
        (r : Reporter) (p : Progress) (e : Event) (es : List Event)
        → contains e.task_id p.blocked ≡ true
        → IsOrdered (ahead r p e es)
        → IsOrdered (looked (r, p) es)
    drop r p e es waits h = record {
      history = h.history;
      told = h.told;
      ordered = h.ordered;
      due =
          Due-mono es (λ id m. done_or_blocked r.sent p.blocked id m || is_event id m e)
            (done_or_blocked r.sent p.blocked)
            (λ id m k. ground (arith, k, waits, eq_iff e.task_id id)) h.due.1;
    }

any-split :
    (p r : Event → Bool) (es : List Event)
    → any p es ≡ true
    → any (λ e. not (r e) && p e) es ≡ false
    → any (λ e. p e && r e) es ≡ true
any-split p r [] h k = cc
any-split p r (e ∷ es) h k = ground (arith, h, k, any-split p r es)

-- An event of the journal that does not wait has been settled.
module _ (s : System) (h : IsOrdered s) where
  pub waits_or_settled :
      (task_id : String) (m : ℕ)
      → any (is_event task_id m) s.reporter.journal.events ≡ true
      → settled task_id m s.reporter.sent
          || any (is_event task_id m) (unreported_events s.reporter.journal)
        ≡ true
  unfolding unreported_events
  waits_or_settled task_id m stands =
      let events = s.reporter.journal.events in
      let waiting =
        any-sort_events (is_event task_id m) (filter (λ e. not e.reported) events)
        ∙ any-filter (is_event task_id m) (λ e. not e.reported) events in
      elim (Bool-cases (any (λ e. not e.reported && is_event task_id m e) events)) [
        | inl waits ↦ rw (waiting, waits) (ground arith)
        | inr not_so ↦
            let done : settled task_id m s.reporter.sent ≡ true =
              h.told task_id m
                (any-split (is_event task_id m) (λ e. e.reported) events stands not_so) in
            ground (arith, done)
      ]

  pub reload-IsOrdered : (reply : Reply) → IsOrdered (act reply s reload)
  unfolding act
  reload-IsOrdered reply = record {
    history = h.history;
    told = h.told;
    ordered = h.ordered;
    due =
        Ascending-Due (unreported_events j) (done_or_blocked s.reporter.sent []) (ascending j)
          (all_stand j (All-of_mem Stands j.events (λ e mem m pos lt. stands e mem m pos lt)));
  }
    where
      j : Journal
      j = s.reporter.journal

      Stands : Event → Type 0
      Stands e =
          Before
            (λ m.
              done_or_blocked s.reporter.sent [] e.task_id m
              || any (is_event e.task_id m) (unreported_events s.reporter.journal))
            e.seq

      ascending : (k : Journal) → Ascending (unreported_events k)
      ascending k =
          unfold unreported_events in sort_events-Ascending (filter (λ e. not e.reported) k.events)

      stands : (e : Event) → Memᴰ e s.reporter.journal.events → Stands e
      stands e mem m pos lt = ground (
        arith,
        waits_or_settled e.task_id m (earlier_stand s.reporter.journal e h.history mem m pos lt),
      )

      all_stand : (k : Journal) → All Stands k.events → All Stands (unreported_events k)
      all_stand k a =
          unfold unreported_events in
          All-sort_events Stands (filter (λ e. not e.reported) k.events)
            (All-filter Stands (λ e. not e.reported) k.events a)
