-- ===== src/Callbacks/Events.antt =====
-- What becomes of a task event that is sent again (runtime/internal/callbacks/handler.go, taskEvent).
use hermes_ai_devops.Common.{some, List, [], ◌∷◌, string_eq}
use hermes_ai_devops.Store.State.{MemStore}
use hermes_ai_devops.Callbacks.{Faults}
use hermes_ai_devops.Callbacks.Reports.{TaskEventReq, task_event}

-- The same event sent once for each entry, with the faults that befall it.
unfoldable pub resend : TaskEventReq → MemStore → List Faults → MemStore
unfolding task_event
resend ev t [] = t
resend ev t (g ∷ gs) = resend ev (task_event g t (some ev)).0 gs
