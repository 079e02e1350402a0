-- ===== src/Store/Tasks/Tests.antt =====
-- Two attempts at a variant.
use hermes_ai_devops.Common.{◌≡◌, refl, [], ◌∷◌}
use hermes_ai_devops.Store.State.{MemStore, new_mem_store, TaskRow}
use hermes_ai_devops.Store.Tasks.{new_record, latest_task_id_for_variant}

abbrev first : TaskRow
first = record {
  task_id = "w:a:a1";
  workflow_id = "w";
  test_id = "a";
  attempt = 1;
  idempotency_key = "w:a:a1";
  client_id = "win1";
  device_id = "d";
  status = "FAILED";
}

abbrev second_try : TaskRow
second_try = record first { task_id = "w:a:a2"; attempt = 2; idempotency_key = "w:a:a2" }

abbrev tried : MemStore
tried = record new_mem_store {
  tasks = ("w:a:a2", new_record second_try 2) ∷ ("w:a:a1", new_record first 1) ∷ [];
}

finds_second : latest_task_id_for_variant tried "w" "a" ≡ "w:a:a2"
unfolding latest_task_id_for_variant
finds_second = refl
