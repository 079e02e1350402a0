-- ===== src/Store/Artifacts/Retries.antt =====
-- The numbers of explicit retries.
use hermes_ai_devops.Common.{
  ℕ, ◌+◌, ◌≡◌, inl, inr, String, some, List, [], ◌∷◌, arith, eq_iff, Option-cases, ◌∙◌, ap,
  string_eq,
}
use hermes_ai_devops.Common.Dict.{lookup, insert, lookup-insert, lookup-insert_self}
use hermes_ai_devops.Store.State.{MemStore, Artifact}
use hermes_ai_devops.Store.Artifacts.{
  artifact_key, key_of, added, register_artifacts, next_workflow_attempt, current_workflow_attempt,
}

register_artifacts-lookup :
    (key : String) (row : Artifact) (arts : List Artifact) (s : MemStore)
    → lookup key s.rows ≡ some row
    → lookup key (register_artifacts s arts).rows ≡ some row
unfolding register_artifacts
register_artifacts-lookup key row [] s h = h
register_artifacts-lookup key row (a ∷ rest) s h = elim (Option-cases (lookup (key_of a) s.rows)) [
  | inr (old, there) ↦ rw (there, register_artifacts) (register_artifacts-lookup key row rest s h)
  | inl absent ↦
      rw (absent, register_artifacts)
        (register_artifacts-lookup key row rest (added a s) (
          lookup-insert (key_of a) key a s.rows ∙ ground (arith, eq_iff (key_of a) key, absent, h)))
]

-- A retry of a registered artifact gets the number after the current one, and that is then the
-- current one, even after the same or other artifacts have been registered again.
pub next_workflow_attempt-current :
    (s : MemStore) (project commit : String) (pipeline_id : ℕ) (variant : String) (n : ℕ)
    (arts : List Artifact)
    → current_workflow_attempt s project commit pipeline_id variant ≡ some n
    → ((next_workflow_attempt s project commit pipeline_id variant).1 ≡ some (n + 1))
      × (current_workflow_attempt
            (register_artifacts (next_workflow_attempt s project commit pipeline_id variant).0 arts)
            project
            commit
            pipeline_id
            variant
          ≡ some (n + 1))
unfolding current_workflow_attempt next_workflow_attempt
next_workflow_attempt-current s project commit pipeline_id variant n arts h =
    let key = artifact_key project commit pipeline_id variant in
    elim (Option-cases (lookup key s.rows)) [
      | inl absent ↦ absurd (ground (arith, absent, h))
      | inr (a, there) ↦
          let same : a.workflow_attempt ≡ n = ground (arith, there, h) in
          let bumped = record a { workflow_attempt = a.workflow_attempt + 1 } in
          let t = record s { rows = insert key bumped s.rows } in
          let kept =
            register_artifacts-lookup key bumped arts t (lookup-insert_self key bumped s.rows) in
          rw (there, next_workflow_attempt)
            (
              ap (λ k. some (k + 1)) same,
              rw (kept, current_workflow_attempt) (ap (λ k. some (k + 1)) same),
            )
    ]
