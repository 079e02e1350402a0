-- ===== src/Store/Runs.antt =====
-- The record of workflow runs (runtime/internal/store/workflow_runs.go). sort.Strings is a parameter.
use Prim.Native.String.{◌++◌ as str_append}
use hermes_ai_devops.Common.{
  ℕ, ◌+◌, String, Bool, true, false, not, ◌&&◌, ◌||◌, Option, none, some, List, [], ◌∷◌, ◌⊎◌, inl,
  inr, if◌then◌else◌, ◌==◌, string_eq,
}
use hermes_ai_devops.Common.Int.{ℤ, pos, negsuc, int_eq, is_positive}
use hermes_ai_devops.Common.Dict.{lookup, insert}
use hermes_ai_devops.Store.State.{MemStore, WorkflowRun}

pub data RunError : Type 0 where
  permanent : String → RunError
  conflict : String → RunError
  not_found : String → RunError

pub data Canonical : Type 0 where
  refused : RunError → Canonical
  canonical : WorkflowRun → Canonical

-- The loop over the sorted variants; `last` is the last one kept.
abbrev pub compact_from : Option String → List String → List String
compact_from last [] = []
compact_from last (v ∷ vs) =
    let skip = compact_from last vs in
    let keep = compact_from (some v) vs in
    let repeated : Bool = elim last [ none ↦ false | some w ↦ w == v ] in
    if v == "" || repeated then skip else v ∷ keep

abbrev pub is_negative : ℤ → Bool
is_negative (pos n) = false
is_negative (negsuc n) = true

abbrev pub same_texts : List String → List String → Bool
same_texts [] [] = true
same_texts [] (y ∷ ys) = false
same_texts (x ∷ xs) [] = false
same_texts (x ∷ xs) (y ∷ ys) = x == y && same_texts xs ys

-- Equal but for the time of their creation.
unfoldable pub workflow_run_immutable_equal : WorkflowRun → WorkflowRun → Bool
workflow_run_immutable_equal a b =
    a.workflow_id == b.workflow_id
    && a.project == b.project
    && a.commit_sha == b.commit_sha
    && int_eq a.pipeline_id b.pipeline_id
    && a.version == b.version
    && a.rule_version == b.rule_version
    && a.scope == b.scope
    && int_eq a.attempt b.attempt
    && same_texts a.variants b.variants
    && a.source_workflow_id == b.source_workflow_id

-- The lookup of the source of the run fails.
abbrev pub lacks_source : MemStore → WorkflowRun → Bool
lacks_source s run =
    if run.source_workflow_id == ""
    then false
    else elim (lookup run.source_workflow_id s.workflow_runs) [ none ↦ true | some r ↦ false ]

abbrev pub insert_run : MemStore → WorkflowRun → ℕ → MemStore
insert_run s run now = record s {
  seq = s.seq + 1;
  workflow_runs = insert run.workflow_id (record run { created_at = now }) s.workflow_runs;
  run_seq = insert run.workflow_id (s.seq + 1) s.run_seq;
}

module _ (sort : List String → List String) where
  unfoldable pub canonical_workflow_run : WorkflowRun → Canonical
  canonical_workflow_run run =
      if run.workflow_id == ""
        || run.project == ""
        || run.commit_sha == ""
        || run.version == ""
        || run.rule_version == ""
      then refused (permanent "required field is empty")
      else if not (is_positive run.pipeline_id)
      then refused (permanent "pipeline_id must be positive")
      else if is_negative run.attempt
      then refused (permanent "attempt must be non-negative")
      else if run.source_workflow_id == run.workflow_id
      then refused (permanent "source workflow must differ from workflow")
      else canonical (record run { variants = compact_from none (sort run.variants) })

  unfoldable pub record_workflow_run : MemStore → WorkflowRun → ℕ → MemStore × Option RunError
  unfolding canonical_workflow_run workflow_run_immutable_equal
  record_workflow_run s run now = elim (canonical_workflow_run run) [
    | refused e ↦ (s, some e)
    | canonical c ↦ elim (lookup c.workflow_id s.workflow_runs) [
      | some old ↦
          if workflow_run_immutable_equal old c
          then (s, none)
          else (s, some (conflict c.workflow_id))
      | none ↦
          if lacks_source s c
          then (
            s,
            some (
                permanent
                  (str_append "source workflow " (str_append c.source_workflow_id " not found"))),
          )
          else (insert_run s c now, none)
    ]
  ]

-- An inl is the error.
unfoldable pub get_workflow_run : MemStore → String → RunError ⊎ WorkflowRun
get_workflow_run s workflow_id = elim (lookup workflow_id s.workflow_runs) [
  | none ↦ inl (not_found workflow_id)
  | some run ↦ inr run
]
