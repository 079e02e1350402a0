-- ===== src/Agent/Server/Once.antt =====
-- A task is started once (agent/internal/server/tasks.go), whatever is sent again.
use hermes_ai_devops.Common.{
  ℕ, ◌≡◌, ◌≢◌, ◌⊎◌, refl, sym, ap, subst, ◌∙◌, String, Bool, true, false, none, some, List, [], ◌∷◌,
  contains, ◌==◌, string_eq, eq_iff, eq_refl, arith, inl, inr, Bool-cases, Option-cases,
}
use hermes_ai_devops.Agent.Journal.{
  Task, Journal, empty_journal, find_task, find_key, inserted_task, is_free, create_task, get_task,
  lookup_by_idempotency_key,
}
use hermes_ai_devops.Agent.Journal.History.{Call, apply_call, find_task-is_free}
use hermes_ai_devops.Agent.Server.{
  Dispatch, Request, unreadable, violation, undecodable, decoded, Server, Turn, answer, asked,
  new_task, start_task, insert_task, TaskStatus, task_status, answered, admit, dispatch_task,
  cancel_running, cancel_task, stop_task, end_task,
}
use hermes_ai_devops.Agent.Server.Keeping.{
  Owns, Stands, create-Stands, create-Owns, call-Stands, call-Owns,
}

-- What an insertion does: nothing but to answer, or the task is new, and is there and started.
abbrev Inserted : Turn → Server → Dispatch → Server → Type 0
Inserted c s d s' =
    (s' ≡ s)
    ⊎ ((is_free s.journal (new_task c d) ≡ true)
        × (s'.journal ≡ (create_task s.journal (new_task c d) c.now).0)
        × (s'.launched ≡ d.task_id ∷ s.launched))

insert_task-Inserted : (c : Turn) (s : Server) (d : Dispatch) → Inserted c s d (insert_task c s d).0
unfolding insert_task create_task start_task
insert_task-Inserted c s d = elim (Bool-cases (is_free s.journal (new_task c d))) [
  | inr taken ↦ inl (ground (arith, taken))
  | inl free ↦ elim (Bool-cases c.create_fails) [
    | inl fails ↦ inl (ground (arith, fails))
    | inr works ↦ inr (free, ground (arith, free, works), ground (arith, free, works))
  ]
]

admit-Inserted : (c : Turn) (s : Server) (d : Dispatch) → Inserted c s d (admit c s d).0
unfolding admit
admit-Inserted c s d =
    elim (Option-cases
      (asked c.lookup_fails (lookup_by_idempotency_key s.journal d.idempotency_key))) [
        | inr (t, known) ↦ inl (ground (arith, known))
        | inl new ↦ elim (Bool-cases c.get_fails) [
          | inl fails ↦ inl (ground (arith, new, fails))
          | inr works ↦ elim (Option-cases (get_task s.journal d.task_id)) [
            | inr (t, there) ↦ inl (ground (arith, new, works, there))
            | inl absent ↦
                let e : (admit c s d).0 ≡ (insert_task c s d).0 =
                  ground (arith, new, works, absent) in
                subst (Inserted c s d) (sym e) (insert_task-Inserted c s d)
          ]
        ]
      ]

-- A request that nobody comes between; the insertion of a request whose checks went through at any
-- earlier time, so that any acts, other requests and their insertions among them, may stand between
-- (the checks change nothing, and are not asked for here); a cancellation, a lost lease, the end of an
-- execution, or what others write to the database.
pub data Act : Type 0 where
  request : Turn → Request → Act
  insertion : Turn → Dispatch → Act
  ended : String → Act
  cancel : Turn → String → Act
  lose_lease : Bool → String → Act
  written : Call → Act

unfoldable pub act : Server → Act → Server
act s (request c r) = (dispatch_task c s r).0
act s (insertion c d) = (insert_task c s d).0
act s (cancel c task_id) = (cancel_task c s task_id).0
act s (lose_lease fails task_id) = stop_task fails s task_id
act s (ended task_id) = end_task s task_id
act s (written c) = record s { journal = apply_call s.journal c }

unfoldable pub acts : Server → List Act → Server
acts s [] = s
acts s (a ∷ more) = acts (act s a) more

abbrev pub NoRepeats : List String → Type 0
NoRepeats [] = Unit
NoRepeats (x ∷ xs) = (contains x xs ≡ false) × NoRepeats xs

pub record IsOnce (s : Server) : Type 0 where
  pub once : NoRepeats s.launched
  pub there : (id : String) → contains id s.launched ≡ true → Stands s.journal id

journal-IsOnce :
    (s : Server) (j : Journal)
    → ((id : String) → Stands s.journal id → Stands j id)
    → IsOnce s
    → IsOnce (record s { journal = j })
journal-IsOnce s j keeps h = record { once = h.once; there = λ id k. keeps id (h.there id k) }

none≢Stands : (j : Journal) (id : String) → find_task id j.tasks ≡ none → ¬ Stands j id
none≢Stands j id gone (t, found) = cc

created_Stands :
    (j : Journal) (t : Task) (now : ℕ)
    → is_free j t ≡ true
    → Stands (create_task j t now).0 t.task_id
unfolding create_task find_task
created_Stands j t now free = (inserted_task t now, rw (free, eq_refl t.task_id) refl)

Inserted-IsOnce :
    (c : Turn) (s : Server) (d : Dispatch) (s' : Server) → Inserted c s d s' → IsOnce s → IsOnce s'
Inserted-IsOnce c s d s' (inl same) h = subst IsOnce (sym same) h
Inserted-IsOnce c s d s' (inr (free, journal, launched)) h = record {
  once = rw launched (fresh (Bool-cases (contains d.task_id s.launched)), h.once);
  there = λ id k. rw journal (stands id (rw launched at k));
}
  where
    fresh :
        (contains d.task_id s.launched ≡ true) ⊎ (contains d.task_id s.launched ≡ false)
        → contains d.task_id s.launched ≡ false
    fresh (inr new) = new
    fresh (inl old) = absurd (
        none≢Stands s.journal d.task_id (find_task-is_free s.journal (new_task c d) free)
          (h.there d.task_id old))

    stands :
        (id : String)
        → contains id (d.task_id ∷ s.launched) ≡ true
        → Stands (create_task s.journal (new_task c d) c.now).0 id
    stands id k = elim (Bool-cases (d.task_id == id)) [
      | inl same ↦
          subst (Stands (create_task s.journal (new_task c d) c.now).0)
            ((eq_iff d.task_id id).0 same) (created_Stands s.journal (new_task c d) c.now free)
      | inr other ↦
          create-Stands s.journal (new_task c d) c.now id (h.there id (ground (arith, k, other)))
    ]

same_launched-IsOnce :
    (s t : Server) → t.journal ≡ s.journal → t.launched ≡ s.launched → IsOnce s → IsOnce t
same_launched-IsOnce s t j l h = record {
  once = subst NoRepeats (sym l) h.once;
  there = λ id k. subst (λ j. Stands j id) (sym j) (h.there id (rw l at k));
}

act-IsOnce : (s : Server) (a : Act) → IsOnce s → IsOnce (act s a)
unfolding act dispatch_task cancel_task stop_task cancel_running end_task
act-IsOnce s (request c unreadable) h = h
act-IsOnce s (request c violation) h = h
act-IsOnce s (request c undecodable) h = h
act-IsOnce s (request c (decoded d)) h =
    Inserted-IsOnce c s d (admit c s d).0 (admit-Inserted c s d) h
act-IsOnce s (insertion c d) h =
    Inserted-IsOnce c s d (insert_task c s d).0 (insert_task-Inserted c s d) h
act-IsOnce s (cancel c task_id) h =
    same_launched-IsOnce s (cancel_task c s task_id).0 (ground arith) (ground arith) h
act-IsOnce s (lose_lease fails task_id) h =
    same_launched-IsOnce s (stop_task fails s task_id) (ground arith) (ground arith) h
act-IsOnce s (ended task_id) h = record { once = h.once; there = h.there }
act-IsOnce s (written c) h =
    journal-IsOnce s (apply_call s.journal c) (λ id k. call-Stands s.journal c id k) h

acts-IsOnce : (s : Server) (todo : List Act) → IsOnce s → IsOnce (acts s todo)
unfolding acts
acts-IsOnce s [] h = h
acts-IsOnce s (a ∷ more) h = acts-IsOnce (act s a) more (act-IsOnce s a h)

abbrev pub new_server : Server
new_server = record { journal = empty_journal; running = []; launched = []; canceled = [] }

-- Whatever requests, cancellations, lost leases, ends of executions and writes of others follow one
-- another on an agent with an empty database, also if other requests for the same task are checked,
-- inserted and started between the checks of a request and its insertion, and whatever calls of the
-- database fail, the execution of no task is started twice.
pub acts-NoRepeats : (todo : List Act) → NoRepeats (acts new_server todo).launched
acts-NoRepeats todo = (acts-IsOnce new_server todo (record { once = tt; there = λ id k. cc })).once

Inserted-Owns :
    (c : Turn) (s : Server) (d : Dispatch) (s' : Server) (key id : String)
    → Inserted c s d s'
    → Owns s.journal key id
    → Owns s'.journal key id
Inserted-Owns c s d s' key id (inl same) h = subst (λ t. Owns t.journal key id) (sym same) h
Inserted-Owns c s d s' key id (inr (free, journal, launched)) h =
    subst (λ j. Owns j key id) (sym journal) (create-Owns s.journal (new_task c d) c.now key id h)

act-Owns :
    (s : Server) (a : Act) (key id : String) → Owns s.journal key id → Owns (act s a).journal key id
unfolding act dispatch_task cancel_task stop_task cancel_running end_task
act-Owns s (request c unreadable) key id h = h
act-Owns s (request c violation) key id h = h
act-Owns s (request c undecodable) key id h = h
act-Owns s (request c (decoded d)) key id h =
    Inserted-Owns c s d (admit c s d).0 key id (admit-Inserted c s d) h
act-Owns s (insertion c d) key id h =
    Inserted-Owns c s d (insert_task c s d).0 key id (insert_task-Inserted c s d) h
act-Owns s (cancel c task_id) key id h =
    let same : (cancel_task c s task_id).0.journal ≡ s.journal = ground arith in
    subst (λ j. Owns j key id) (sym same) h
act-Owns s (lose_lease fails task_id) key id h =
    let same : (stop_task fails s task_id).journal ≡ s.journal = ground arith in
    subst (λ j. Owns j key id) (sym same) h
act-Owns s (ended task_id) key id h = h
act-Owns s (written c) key id h = call-Owns s.journal c key id h

acts-Owns :
    (s : Server) (todo : List Act) (key id : String)
    → Owns s.journal key id
    → Owns (acts s todo).journal key id
unfolding acts
acts-Owns s [] key id h = h
acts-Owns s (a ∷ more) key id h = acts-Owns (act s a) more key id (act-Owns s a key id h)

created_Owns :
    (j : Journal) (t : Task) (now : ℕ)
    → is_free j t ≡ true
    → Owns (create_task j t now).0 t.idempotency_key t.task_id
unfolding create_task find_key
created_Owns j t now free = (inserted_task t now, rw (free, eq_refl t.idempotency_key) refl, refl)

list≢cons : (x : String) (xs : List String) → xs ≢ x ∷ xs
list≢cons x [] e = cc
list≢cons x (y ∷ ys) e = list≢cons y ys (ground (arith, e))

admit-known :
    (c : Turn) (s : Server) (d : Dispatch) (t : Task)
    → c.lookup_fails ≡ false
    → find_key d.idempotency_key s.journal.tasks ≡ some t
    → admit c s d ≡ (s, answer c s.journal t)
unfolding admit lookup_by_idempotency_key
admit-known c s d t looks found = ground arith

-- The act of a request that started the task of `d`: the request as a whole, or its insertion.
pub data Starts (d : Dispatch) : Act → Type 0 where
  whole : (c : Turn) → Starts d (request c (decoded d))
  second_half : (c : Turn) → Starts d (insertion c d)

Inserted-started :
    (c : Turn) (s : Server) (d : Dispatch) (s' : Server)
    → Inserted c s d s'
    → s'.launched ≡ d.task_id ∷ s.launched
    → Owns s'.journal d.idempotency_key d.task_id
Inserted-started c s d s' (inl stays) started =
    absurd (list≢cons d.task_id s.launched (sym (ap (λ t. t.launched) stays) ∙ started))
Inserted-started c s d s' (inr (free, journal, launched)) started =
    subst (λ j. Owns j d.idempotency_key d.task_id) (sym journal)
      (created_Owns s.journal (new_task c d) c.now free)

Starts-Owns :
    (s : Server) (d : Dispatch) (a : Act)
    → Starts d a
    → (act s a).launched ≡ d.task_id ∷ s.launched
    → Owns (act s a).journal d.idempotency_key d.task_id
unfolding act dispatch_task
Starts-Owns s d _ (whole c) started =
    Inserted-started c s d (admit c s d).0 (admit-Inserted c s d) started
Starts-Owns s d _ (second_half c) started =
    Inserted-started c s d (insert_task c s d).0 (insert_task-Inserted c s d) started

-- The status that is answered is of the stored task.
pub record IsStatusOf (t : Task) (st : TaskStatus) : Type 0 where
  pub task : st.task_id ≡ t.task_id
  pub key : st.idempotency_key ≡ t.idempotency_key
  pub attempt : st.attempt ≡ t.attempt
  pub state : st.state ≡ t.state

task_status-IsStatusOf :
    (fails : Bool) (j : Journal) (t : Task) → IsStatusOf t (task_status fails j t)
unfolding task_status
task_status-IsStatusOf fails j t = record {
  task = ground arith;
  key = ground arith;
  attempt = ground arith;
  state = ground arith;
}

-- A request that has started its task may be sent again at any later time, after whatever has
-- happened meanwhile: if the key can be looked up, it is accepted, starts nothing and writes nothing,
-- and the answer is the status of the task that the journal then holds under the request's key and
-- whose id is the request's: its id, key, attempt and present state.
pub dispatch_again :
    (c : Turn) (s : Server) (d : Dispatch) (a : Act) (todo : List Act)
    → Starts d a
    → (act s a).launched ≡ d.task_id ∷ s.launched
    → c.lookup_fails ≡ false
    → (let later : Server = acts (act s a) todo in
        (t : Task) × (lookup_by_idempotency_key later.journal d.idempotency_key ≡ some t)
        × (t.task_id ≡ d.task_id)
        × ((st : TaskStatus) × (dispatch_task c later (decoded d) ≡ (later, answered 202 st))
            × IsStatusOf t st))
unfolding dispatch_task lookup_by_idempotency_key
dispatch_again c s d a todo begins started looks =
    let later : Server = acts (act s a) todo in
    let (t, found, same) =
      acts-Owns (act s a) todo d.idempotency_key d.task_id (Starts-Owns s d a begins started) in
    (
      t,
      found,
      same,
      (
        task_status c.latest_event_fails later.journal t,
        admit-known c later d t looks found,
        task_status-IsStatusOf c.latest_event_fails later.journal t,
      ),
    )
