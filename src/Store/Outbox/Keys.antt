-- ===== src/Store/Outbox/Keys.antt =====
-- Idempotency keys of the outbox.
use mathlib.Core.List.{◌++◌}
use hermes_ai_devops.Common.{
  ℕ, ◌≡◌, refl, String, true, ◌||◌, List, [], ◌∷◌, arith, eq_refl, string_eq, Bool-cases, inl, inr,
}
use hermes_ai_devops.Store.State.{MemStore, OutboxEvent, OutboxRow}
use hermes_ai_devops.Store.Outbox.{has_key, enqueue}

pub has_key-append :
    (k : String) (xs ys : List OutboxRow) → has_key k (xs ++ ys) ≡ has_key k xs || has_key k ys
unfolding has_key
has_key-append k [] ys = refl
has_key-append k (x ∷ xs) ys = ground (arith, has_key-append k xs ys)

-- After an event is enqueued its key is in the outbox.
pub has_key-enqueue :
    (s : MemStore) (ev : OutboxEvent) (now : ℕ)
    → has_key ev.event_key (enqueue s ev now).outbox ≡ true
unfolding enqueue has_key
has_key-enqueue s ev now = elim (Bool-cases (has_key ev.event_key s.outbox)) [
  | inl old ↦ rw old old
  | inr new ↦
      rw (new, has_key-append ev.event_key s.outbox _, new) (ground (arith, eq_refl ev.event_key))
]
