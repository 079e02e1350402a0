-- ===== src/Store/Tasks/Laws.antt =====
-- The latest attempt of a variant.
use hermes_ai_devops.Common.{
  ℕ, ◌+◌, ◌≤◌, ◌≡◌, refl, ◌⊎◌, inl, inr, String, Bool, true, ◌&&◌, [], ◌∷◌, All, any, arith,
  eq_refl, ap, if◌then◌else◌, ◌==◌, string_eq, nat_eq,
}
use hermes_ai_devops.Common.Dict.{Dict}
use hermes_ai_devops.Store.State.{MemStore, TaskRecord}
use hermes_ai_devops.Store.Tasks.{Best, no_best, better, best_from, latest_task_id_for_variant}

-- One more than the attempt of a task of that run and variant, 0 for another task.
abbrev pub rank_of : String → String → TaskRecord → ℕ
rank_of workflow_id variant rec =
    if rec.row.workflow_id == workflow_id && rec.row.test_id == variant
    then rec.row.attempt + 1
    else 0

module _ (workflow_id variant : String) where
  best_from-rank :
      (b : Best) (tasks : Dict TaskRecord) → b.rank ≤ (best_from workflow_id variant b tasks).rank
  unfolding best_from
  best_from-rank b [] = omega arith
  best_from-rank b ((id, rec) ∷ rest) =
      ground (arith, best_from-rank (better workflow_id variant b id rec) rest)

  best_from-most :
      (b : Best) (tasks : Dict TaskRecord)
      → All
          (λ e. rank_of workflow_id variant e.1 ≤ (best_from workflow_id variant b tasks).rank)
          tasks
  unfolding best_from
  best_from-most b [] = tt
  best_from-most b ((id, rec) ∷ rest) = (
    ground (arith, best_from-rank (better workflow_id variant b id rec) rest),
    best_from-most (better workflow_id variant b id rec) rest,
  )

  -- A task under the id, of that rank.
  abbrev pub attains : Best → Dict TaskRecord → Bool
  attains b tasks = any (λ e. e.0 == b.id && rank_of workflow_id variant e.1 == b.rank) tasks

  best_from-attains :
      (b : Best) (tasks : Dict TaskRecord)
      → (best_from workflow_id variant b tasks ≡ b)
        ⊎ (attains (best_from workflow_id variant b tasks) tasks ≡ true)
  unfolding best_from
  best_from-attains b [] = inl refl
  best_from-attains b ((id, rec) ∷ rest) =
      ground (arith, best_from-attains (better workflow_id variant b id rec) rest, eq_refl id)

-- LatestTaskIDForVariant gives the id of a task of that run and variant whose attempt is as great as
-- that of any other, or the empty text if there is no such task.
pub latest_task_id-most :
    (s : MemStore) (workflow_id variant : String)
    → (b : Best) × (b.id ≡ latest_task_id_for_variant s workflow_id variant)
      × All (λ e. rank_of workflow_id variant e.1 ≤ b.rank) s.tasks
      × (((b.rank ≡ 0) × (b.id ≡ "")) ⊎ (attains workflow_id variant b s.tasks ≡ true))
unfolding latest_task_id_for_variant
latest_task_id-most s workflow_id variant = (
  best_from workflow_id variant no_best s.tasks,
  refl,
  best_from-most workflow_id variant no_best s.tasks,
  elim (best_from-attains workflow_id variant no_best s.tasks) [
    | inl same ↦ inl (ap (λ b. b.rank) same, ap (λ b. b.id) same)
    | inr found ↦ inr found
  ],
)
