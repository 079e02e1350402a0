-- ===== src/Store/Artifacts.antt =====
-- Registered artifacts and the numbering of explicit retries (runtime/internal/store/store.go).
pub mod Retries
mod Tests
use Prim.Native.String.{◌++◌ as str_append}
use hermes_ai_devops.Common.{ℕ, ◌+◌, ◌≡◌, refl, String, Option, none, some, List, [], ◌∷◌}
use hermes_ai_devops.Common.Text.{itoa}
use hermes_ai_devops.Common.Dict.{Dict, lookup, insert}
use hermes_ai_devops.Store.State.{MemStore, new_mem_store, Artifact}

unfoldable pub artifact_key : String → String → ℕ → String → String
artifact_key project commit pipeline_id variant = str_append project (
    str_append "|"
      (str_append commit (str_append "|" (str_append (itoa pipeline_id) (str_append "|" variant)))))

abbrev pub key_of : Artifact → String
key_of a = artifact_key a.project a.commit_sha a.pipeline_id a.variant

abbrev pub added : Artifact → MemStore → MemStore
added a s = record s {
  rows = insert (key_of a) a s.rows;
  seq = s.seq + 1;
  row_seq = insert (key_of a) (s.seq + 1) s.row_seq;
}

-- An artifact that is registered already keeps its row.
unfoldable pub register_artifacts : MemStore → List Artifact → MemStore
register_artifacts s [] = s
register_artifacts s (a ∷ rest) =
    let kept = register_artifacts s rest in
    let put = register_artifacts (added a s) rest in
    elim (lookup (key_of a) s.rows) [ none ↦ put | some old ↦ kept ]

-- The new attempt; `none` is the error of an artifact that is not registered.
unfoldable pub next_workflow_attempt : MemStore → String → String → ℕ → String → MemStore × Option ℕ
next_workflow_attempt s project commit pipeline_id variant =
    let key = artifact_key project commit pipeline_id variant in
    elim (lookup key s.rows) [
      | none ↦ (s, none)
      | some a ↦
          let n = a.workflow_attempt + 1 in
          (record s { rows = insert key (record a { workflow_attempt = n }) s.rows }, some n)
    ]

unfoldable pub current_workflow_attempt : MemStore → String → String → ℕ → String → Option ℕ
current_workflow_attempt s project commit pipeline_id variant =
    elim (lookup (artifact_key project commit pipeline_id variant) s.rows) [
      | none ↦ none
      | some a ↦ some a.workflow_attempt
    ]
