-- ===== src/Relay/Delivery.antt =====
-- When the relay takes an event for delivered, and that no other event leaves the backlog.
use Prim.Native.String.{◌++◌ as str_append}
use hermes_ai_devops.Common.{◌≡◌, ◌⊎◌, String, true, none, some, List, [], string_eq, nat_eq}
use hermes_ai_devops.Store.State.{MemStore, OutboxEvent, ResultEventPayload, QuarantineEventPayload}
use hermes_ai_devops.Store.Outbox.{event_task_result, event_device_quarantined}
use hermes_ai_devops.Relay.{
  Config, sent, not_found, Answer, Effect, decode_result, decode_quarantine, publish, fail,
}

-- The event has reached its receiver, or need not: a result was signaled, or its workflow is over; a
-- quarantine was told, or the operator has switched those notifications off.
abbrev pub Consumed : Config → OutboxEvent → Answer → Type 0
Consumed c ev a =
    ((ev.event_type ≡ event_task_result)
      × ((p : ResultEventPayload) × (decode_result ev.payload ≡ some p))
      × ((a.signaled ≡ sent) ⊎ (a.signaled ≡ not_found)))
    ⊎ ((ev.event_type ≡ event_device_quarantined)
        × ((p : QuarantineEventPayload) × (decode_quarantine ev.payload ≡ some p))
        × ((c.device_notify_disabled ≡ true) ⊎ ((c.has_notifier ≡ true) × (a.notify_error ≡ none))))

-- What deliver does with the row: published because the event is consumed, or failed, with nothing
-- sent, because it is not.
abbrev pub IsSettled : Config → MemStore → OutboxEvent → Answer → MemStore × List Effect → Type 0
IsSettled c s ev a r =
    (Consumed c ev a × (r.0 ≡ publish s ev a))
    ⊎ ((¬ Consumed c ev a) × ((cause : String) × (r.0 ≡ fail s ev a cause)) × (r.1 ≡ []))
