-- ===== src/Callbacks/Delivery.antt =====
-- A reported result on its way to the workflow (runtime/internal/callbacks/handler.go, result, and
-- runtime/internal/relay/relay.go, deliver).
use mathlib.Core.List.{◌++◌}
use hermes_ai_devops.Common.{ℕ, ◌+◌, ◌≡◌, String, false, [], ◌∷◌}
use hermes_ai_devops.Store.State.{MemStore, TaskResultSignal, OutboxEvent, OutboxRow}
use hermes_ai_devops.Relay.{Config, Answer, signaled_workflow, publish, deliver}
use hermes_ai_devops.Callbacks.Reports.{Handled}

-- The row that a first report appends to the outbox.
abbrev appended : MemStore → OutboxEvent → ℕ → OutboxRow
appended s ev now = record {
  ev = record ev { id = s.outbox_seq + 1 };
  published = false;
  created_at = now;
}

-- What is said of a signal that a handler sends at once.
abbrev pub Agrees :
    Config → MemStore → Answer → MemStore → Handled → String → TaskResultSignal → Type 0
Agrees c t a s h workflow_id sig =
    (r : OutboxRow) × (h.store.outbox ≡ s.outbox ++ r ∷ [])
    × (r.published ≡ false)
    × (deliver c t r.ev a ≡ (publish t r.ev a, signaled_workflow workflow_id sig ∷ []))
