-- ===== src/Agent/Server/Keeping.antt =====
-- A task that is in the journal stays there, under its id and its key
-- (agent/internal/store/store.go).
use hermes_ai_devops.Common.{
  ℕ, ◌≡◌, refl, sym, subst, ◌∙◌, String, true, false, ◌||◌, Option, none, some, List, [], ◌∷◌, any,
  ◌==◌, string_eq, eq_iff, arith, inl, inr, Bool-cases,
}
use hermes_ai_devops.Agent.Journal.{
  Task, Journal, find_task, find_key, update_task, inserted_task, is_free, create_task, moved_task,
  mark_event_reported, mark_result_recorded,
}
use hermes_ai_devops.Agent.Journal.History.{
  Call, create, move, report_event, record_result, apply_call, find_task-update_task,
  transition-cases, transition-made,
}

-- The key belongs to the task with this id.
abbrev pub Owns : Journal → String → String → Type 0
Owns j key id = (t : Task) × (find_key key j.tasks ≡ some t) × (t.task_id ≡ id)

abbrev pub Stands : Journal → String → Type 0
Stands j id = (t : Task) × (find_task id j.tasks ≡ some t)

update-Owns :
    (id key owner : String) (f : Task → Task) (ts : List Task) (t : Task)
    → ((u : Task) → (f u).task_id ≡ u.task_id)
    → ((u : Task) → (f u).idempotency_key ≡ u.idempotency_key)
    → find_key key ts ≡ some t
    → t.task_id ≡ owner
    → (u : Task) × (find_key key (update_task id f ts) ≡ some u) × (u.task_id ≡ owner)
unfolding find_key update_task
update-Owns id key owner f [] t ids keys h o = cc
update-Owns id key owner f (x ∷ xs) t ids keys h o = elim (Bool-cases (x.idempotency_key == key)) [
  | inr other ↦
      let (u, found, same) = update-Owns id key owner f xs t ids keys (rw other at h) o in
      (u, ground (arith, other, found, keys x), same)
  | inl here ↦ elim (Bool-cases (x.task_id == id)) [
    | inl hit ↦ (f x, ground (arith, hit, here, keys x), ground (arith, h, here, ids x))
    | inr miss ↦ (x, ground (arith, miss, here), ground (arith, h, here))
  ]
]

update-Stands :
    (id key : String) (f : Task → Task) (ts : List Task) (t : Task)
    → ((u : Task) → (f u).task_id ≡ u.task_id)
    → find_task id ts ≡ some t
    → (u : Task) × (find_task id (update_task key f ts) ≡ some u)
update-Stands id key f ts t ids h =
    let e = find_task-update_task key id f ts ids in
    elim (Bool-cases (key == id)) [
      | inl same ↦ (f t, e ∙ (rw (same, h) refl))
      | inr other ↦ (t, e ∙ (rw (other, h) refl))
    ]

find_key-is_free :
    (j : Journal) (t : Task) → is_free j t ≡ true → find_key t.idempotency_key j.tasks ≡ none
unfolding find_key
find_key-is_free j t h = free j.tasks (ground (arith, h))
  where
    free :
        (ts : List Task)
        → any (λ u. u.task_id == t.task_id || u.idempotency_key == t.idempotency_key) ts ≡ false
        → find_key t.idempotency_key ts ≡ none
    free [] k = refl
    free (x ∷ xs) k = ground (arith, k, free xs)

pub create-Stands :
    (j : Journal) (t : Task) (now : ℕ) (id : String)
    → Stands j id
    → Stands (create_task j t now).0 id
unfolding create_task find_task
create-Stands j t now id (u, h) = elim (Bool-cases (is_free j t)) [
  | inr taken ↦ (u, rw taken h)
  | inl free ↦ elim (Bool-cases (t.task_id == id)) [
    | inl same ↦ (inserted_task t now, rw (free, same) refl)
    | inr other ↦ (u, rw (free, other) h)
  ]
]

pub create-Owns :
    (j : Journal) (t : Task) (now : ℕ) (key id : String)
    → Owns j key id
    → Owns (create_task j t now).0 key id
unfolding create_task find_key
create-Owns j t now key id (u, h, o) = elim (Bool-cases (is_free j t)) [
  | inr taken ↦ (u, rw taken h, o)
  | inl free ↦ elim (Bool-cases (t.idempotency_key == key)) [
    | inr other ↦ (u, rw (free, other) h, o)
    | inl same ↦
        absurd (clash (rw ((eq_iff t.idempotency_key key).0 same) h) (find_key-is_free j t free))
  ]
]
  where
    clash : {o : Option Task} → o ≡ some u → o ≡ none → ⊥
    clash p q = cc

pub call-Stands : (j : Journal) (c : Call) (id : String) → Stands j id → Stands (apply_call j c) id
unfolding apply_call mark_event_reported mark_result_recorded
call-Stands j (create t now) id h = create-Stands j t now id h
call-Stands j (report_event task_id seq) id h = h
call-Stands j (record_result task_id) id (t, h) =
    update-Stands id task_id (λ u. record u { result_recorded = true }) j.tasks t (λ u. refl) h
call-Stands j (move task_id from to detail now) id (t, h) =
    elim (transition-cases j task_id from to detail now) [
      | inl refused ↦ subst (λ k. Stands k id) (sym refused.0) (t, h)
      | inr (u, found, live, same) ↦
          subst (λ r. Stands r.0 id)
            (sym (transition-made j task_id from to detail now u found live same))
            (update-Stands id task_id (moved_task to now) j.tasks t (λ u. refl) h)
    ]

pub call-Owns :
    (j : Journal) (c : Call) (key id : String) → Owns j key id → Owns (apply_call j c) key id
unfolding apply_call mark_event_reported mark_result_recorded
call-Owns j (create t now) key id h = create-Owns j t now key id h
call-Owns j (report_event task_id seq) key id h = h
call-Owns j (record_result task_id) key id (t, h, o) =
    update-Owns task_id key id (λ u. record u { result_recorded = true }) j.tasks t (λ u. refl)
      (λ u. refl) h o
call-Owns j (move task_id from to detail now) key id (t, h, o) =
    elim (transition-cases j task_id from to detail now) [
      | inl refused ↦ subst (λ k. Owns k key id) (sym refused.0) (t, h, o)
      | inr (u, found, live, same) ↦
          subst (λ r. Owns r.0 key id)
            (sym (transition-made j task_id from to detail now u found live same))
            (update-Owns task_id key id (moved_task to now) j.tasks t (λ u. refl) (λ u. refl) h o)
    ]
