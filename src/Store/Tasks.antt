-- ===== src/Store/Tasks.antt =====
-- Tasks, their events and their results (runtime/internal/store/tasks.go). An index key of an event
-- is its task id and its number.
pub mod Laws
mod Tests
use Prim.Native.String.{◌++◌ as str_append}
use hermes_ai_devops.Common.{
  ℕ, ◌+◌, String, Bool, true, false, not, ◌&&◌, ◌||◌, Option, none, some, List, [], ◌∷◌, ltb,
  contains, if◌then◌else◌, ◌==◌, string_eq, nat_eq,
}
use hermes_ai_devops.Common.Text.{itoa}
use hermes_ai_devops.Common.Dict.{Dict, lookup, insert}
use hermes_ai_devops.Store.State.{
  MemStore, TaskRow, TaskRecord, TaskEvent, FinishRequest, ResultRecord, zero_time,
}

abbrev pub new_record : TaskRow → ℕ → TaskRecord
new_record row seq = record {
  row = row;
  verdict = "";
  category = "";
  reason = "";
  seq = seq;
  ended_at = zero_time;
}

unfoldable pub create_task : MemStore → TaskRow → MemStore
create_task s row = elim (lookup row.task_id s.tasks) [
  | some rec ↦ s
  | none ↦ record s {
    seq = s.seq + 1;
    tasks = insert row.task_id (new_record row (s.seq + 1)) s.tasks;
  }
]

unfoldable pub get_task : MemStore → String → Option TaskRow
get_task s task_id = elim (lookup task_id s.tasks) [ none ↦ none | some rec ↦ some rec.row ]

-- The variables of the loop of LatestTaskIDForVariant; `rank` is bestAttempt + 1.
pub record Best : Type 0 where
  pub id : String
  pub rank : ℕ
  pub at_seq : ℕ

abbrev pub no_best : Best
no_best = record { id = ""; rank = 0; at_seq = 0 }

abbrev pub better : String → String → Best → String → TaskRecord → Best
better workflow_id variant b id rec =
    if not (rec.row.workflow_id == workflow_id) || not (rec.row.test_id == variant)
    then b
    else if ltb b.rank (rec.row.attempt + 1)
        || (rec.row.attempt + 1 == b.rank && ltb b.at_seq rec.seq)
    then record { id = id; rank = rec.row.attempt + 1; at_seq = rec.seq }
    else b

unfoldable pub best_from : String → String → Best → Dict TaskRecord → Best
best_from workflow_id variant b [] = b
best_from workflow_id variant b ((id, rec) ∷ rest) =
    best_from workflow_id variant (better workflow_id variant b id rec) rest

unfoldable pub latest_task_id_for_variant : MemStore → String → String → String
unfolding best_from
latest_task_id_for_variant s workflow_id variant =
    (best_from workflow_id variant no_best s.tasks).id

unfoldable pub set_task_status : MemStore → String → String → MemStore
set_task_status s task_id status = elim (lookup task_id s.tasks) [
  | none ↦ s
  | some rec ↦
      let row = rec.row in
      record s {
        tasks = insert task_id (record rec { row = record row { status = status } }) s.tasks;
      }
]

unfoldable pub finish_task : MemStore → FinishRequest → ℕ → MemStore
finish_task s req now = elim (lookup req.task_id s.tasks) [
  | none ↦ s
  | some rec ↦
      let row = rec.row in
      record s {
        tasks =
            insert req.task_id
              (record rec {
                row = record row { status = req.status };
                verdict = req.verdict;
                category = req.category;
                reason = req.reason;
                ended_at = now;
              })
              s.tasks;
      }
]

abbrev pub event_index : TaskEvent → String
event_index ev = str_append ev.task_id (str_append "|" (itoa ev.seq))

-- Whether the event was inserted.
unfoldable pub append_task_event : MemStore → TaskEvent → MemStore × Bool
append_task_event s ev = elim (lookup (event_index ev) s.events) [
  | some old ↦ (s, false)
  | none ↦ (record s { events = insert (event_index ev) ev s.events }, true)
]

unfoldable pub save_result : MemStore → ResultRecord → MemStore × Bool
save_result s rec = elim (lookup rec.task_id s.results) [
  | some old ↦ (s, false)
  | none ↦ (record s { results = insert rec.task_id rec s.results }, true)
]

unfoldable pub get_result : MemStore → String → Option ResultRecord
get_result s task_id = lookup task_id s.results

abbrev pub is_conclusive : String → Bool
is_conclusive verdict = verdict == "PASSED" || verdict == "TEST_FAILED"

-- Membership in the answer of ConclusiveWorkflowIDs.
unfoldable pub concluded : List String → Dict TaskRecord → String → Bool
concluded workflow_ids [] id = false
concluded workflow_ids ((key, rec) ∷ rest) id =
    (contains rec.row.workflow_id workflow_ids
      && rec.row.status == "COMPLETED"
      && is_conclusive rec.verdict
      && rec.row.workflow_id == id)
    || concluded workflow_ids rest id
