-- ===== src/Store/Outbox.antt =====
-- The transactional outbox (runtime/internal/store/outbox.go). Rows are appended with the next id
-- and never removed; a row is looked up by its idempotency key or by its id.
pub mod Keys
pub mod Delivery
pub mod Claim
mod Tests
use mathlib.Core.List.{◌++◌}
use hermes_ai_devops.Common.{
  ℕ, ◌+◌, ◌-◌, String, Bool, true, false, ◌||◌, Option, none, some, List, [], ◌∷◌, leb, ltb,
  if◌then◌else◌, ◌==◌, string_eq, nat_eq,
}
use hermes_ai_devops.Common.Dict.{lookup, insert}
use hermes_ai_devops.Store.State.{MemStore, OutboxEvent, OutboxRow, ResultRecord}

abbrev pub event_task_result : String
event_task_result = "task-result"

abbrev pub event_device_quarantined : String
event_device_quarantined = "device-quarantined"

-- _, ok := s.outboxByKey[key]
unfoldable pub has_key : String → List OutboxRow → Bool
has_key key [] = false
has_key key (r ∷ rs) = r.ev.event_key == key || has_key key rs

-- The row that `outboxByID[id]` points to.
unfoldable pub find_id : ℕ → List OutboxRow → Option OutboxRow
find_id id [] = none
find_id id (r ∷ rs) = if r.ev.id == id then some r else find_id id rs

-- A write through that pointer.
unfoldable pub update_id : ℕ → (OutboxRow → OutboxRow) → List OutboxRow → List OutboxRow
update_id id f [] = []
update_id id f (r ∷ rs) = if r.ev.id == id then f r ∷ rs else r ∷ update_id id f rs

-- Append an event unless its key is there: the block that SaveResultWithOutbox and
-- emitQuarantineEvent share.
unfoldable pub enqueue : MemStore → OutboxEvent → ℕ → MemStore
unfolding has_key
enqueue s ev now = if has_key ev.event_key s.outbox then s else record s {
  outbox_seq = s.outbox_seq + 1;
  outbox =
      s.outbox
      ++ record { ev = record ev { id = s.outbox_seq + 1 }; published = false; created_at = now }
        ∷ [];
}

-- The result row, if there is none for the task yet, and the event; whether a row was inserted.
unfoldable pub save_result_with_outbox : MemStore → ResultRecord → OutboxEvent → ℕ → MemStore × Bool
unfolding enqueue
save_result_with_outbox s rec ev now = elim (lookup rec.task_id s.results) [
  | none ↦ (enqueue (record s { results = insert rec.task_id rec s.results }) ev now, true)
  | some old ↦ (enqueue s ev now, false)
]

-- The loop of ClaimUnpublished: `taken` is len(out). A row is appended before `len(out) >= limit` is
-- tested, so a limit of 0 claims one row.
claim_from : ℕ → ℕ → List OutboxRow → List OutboxEvent
claim_from limit taken [] = []
claim_from limit taken (r ∷ rs) =
    let skip = claim_from limit taken rs in
    let next = claim_from limit (taken + 1) rs in
    if r.published then skip else r.ev ∷ (if leb limit (taken + 1) then [] else next)

unfoldable pub claim_unpublished : MemStore → ℕ → List OutboxEvent
unfolding claim_from
claim_unpublished s limit = claim_from limit 0 s.outbox

abbrev pub publish_row : OutboxRow → OutboxRow
publish_row r = record r { published = true }

unfoldable pub mark_published : MemStore → ℕ → MemStore
unfolding update_id
mark_published s id = record s { outbox = update_id id publish_row s.outbox }

-- Only an unpublished row is changed.
abbrev pub fail_row : String → OutboxRow → OutboxRow
fail_row cause r =
    if r.published
    then r
    else let ev = r.ev in
      record r { ev = record ev { attempts = ev.attempts + 1; last_error = cause } }

unfoldable pub mark_failed : MemStore → ℕ → String → MemStore
unfolding update_id
mark_failed s id cause = record s { outbox = update_id id (fail_row cause) s.outbox }

pub record OutboxBacklog : Type 0 where
  pub pending : ℕ
  pub stuck : ℕ
  pub oldest_age : ℕ
  pub oldest_id : ℕ
  pub sample_error : String

-- The variables of the loop of OutboxBacklog; `max_attempts` is one more than the source's, which
-- starts at -1.
pub record BacklogScan : Type 0 where
  pub pending : ℕ
  pub stuck : ℕ
  pub oldest : ℕ
  pub oldest_id : ℕ
  pub max_attempts : ℕ
  pub sample_error : String

unfoldable pub scan_row : ℕ → BacklogScan → OutboxRow → BacklogScan
scan_row threshold b r =
    if r.published
    then b
    else let older = b.oldest == 0 || ltb r.created_at b.oldest in
      let worse = ltb b.max_attempts (r.ev.attempts + 1) in
      record {
        pending = b.pending + 1;
        stuck = if leb threshold r.ev.attempts then b.stuck + 1 else b.stuck;
        oldest = if older then r.created_at else b.oldest;
        oldest_id = if older then r.ev.id else b.oldest_id;
        max_attempts = if worse then r.ev.attempts + 1 else b.max_attempts;
        sample_error = if worse then r.ev.last_error else b.sample_error;
      }

unfoldable pub scan_rows : ℕ → BacklogScan → List OutboxRow → BacklogScan
scan_rows threshold b [] = b
scan_rows threshold b (r ∷ rs) = scan_rows threshold (scan_row threshold b r) rs

abbrev pub empty_scan : BacklogScan
empty_scan = record {
  pending = 0;
  stuck = 0;
  oldest = 0;
  oldest_id = 0;
  max_attempts = 0;
  sample_error = "";
}

-- `oldest.IsZero()` is 0 here, and the age of a row from the future would be negative in the
-- source: it is 0 here.
unfoldable pub outbox_backlog : MemStore → ℕ → ℕ → OutboxBacklog
unfolding scan_rows scan_row
outbox_backlog s stuck_attempts now =
    let threshold = if stuck_attempts == 0 then 1 else stuck_attempts in
    let b = scan_rows threshold empty_scan s.outbox in
    record {
      pending = b.pending;
      stuck = b.stuck;
      oldest_age = if b.oldest == 0 then 0 else now - b.oldest;
      oldest_id = b.oldest_id;
      sample_error = b.sample_error;
    }
