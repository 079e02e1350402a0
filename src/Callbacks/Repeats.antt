-- ===== src/Callbacks/Repeats.antt =====
-- What a repeated or a failed report does (runtime/internal/callbacks/handler.go, taskEvent and
-- result).
use hermes_ai_devops.Common.{
  ℕ, ◌≡◌, ◌⊎◌, refl, ◌∙◌, ap, String, true, false, Option, none, some, if◌then◌else◌, ◌==◌,
  string_eq, arith, Option-cases, Bool-cases, inl, inr,
}
use hermes_ai_devops.Store.State.{MemStore, TaskRow, TaskResultSignal, ResultRecord, OutboxEvent}
use hermes_ai_devops.Store.Tasks.{get_task, get_result}
use hermes_ai_devops.Store.Outbox.{has_key, enqueue, save_result_with_outbox}
use hermes_ai_devops.Store.Outbox.Claim.{save_cases, save_again}
use hermes_ai_devops.Callbacks.{Faults, Response, bad_request, store_error, accepted, is_accepted}
use hermes_ai_devops.Callbacks.Reports.{
  ResultDoc, Document, missing, not_json, violation, conforming, ResultReq, signal_of, result_key,
  result_event, Handled, refused, save_report, conforming_result, read_document, result_report,
}

-- What a report that goes through all checks does.
abbrev pub saved_report : MemStore → ℕ → TaskRow → String → ResultDoc → Handled
saved_report s now row task_id d =
    let sig = signal_of task_id d in
    let (t, inserted) =
      save_result_with_outbox s (record { task_id = task_id; result = sig })
        (result_event row task_id sig) now in
    record {
      store = t;
      response = accepted;
      signaled = if inserted then some (row.workflow_id, sig) else none;
    }

-- The two ways in which the handler ends.
pub data Treated (f : Faults) (s : MemStore) (now : ℕ) (req : ResultReq) : Handled → Type 0 where
  turned_away : (r : Response) → is_accepted r ≡ false → Treated f s now req (refused s r)
  went_through :
      (row : TaskRow) (d : ResultDoc)
      → (req.task_id == "") ≡ false
      → req.result ≡ conforming (some d)
      → f.get_task_fails req.task_id ≡ false
      → get_task s req.task_id ≡ some row
      → f.save_fails ≡ false
      → Treated f s now req (saved_report s now row req.task_id d)

module _ (f : Faults) (s : MemStore) (now : ℕ) where
  conforming-Treated :
      (req : ResultReq) (doc : Option ResultDoc)
      → (req.task_id == "") ≡ false
      → req.result ≡ conforming doc
      → Treated f s now req (conforming_result f s now req.task_id doc)
  unfolding conforming_result save_report
  conforming-Treated req doc named is = elim (Bool-cases (f.get_task_fails req.task_id)) [
    | inl down ↦ rw (down, conforming_result) (turned_away store_error refl)
    | inr up ↦ elim (Option-cases (get_task s req.task_id)) [
      | inl absent ↦
          rw (up, absent, conforming_result) (turned_away (bad_request "unknown_task") refl)
      | inr (row, there) ↦ rw (up, there, conforming_result) (of_doc row doc is up there)
    ]
  ]
    where
      of_doc :
          (row : TaskRow) (read : Option ResultDoc)
          → req.result ≡ conforming read
          → f.get_task_fails req.task_id ≡ false
          → get_task s req.task_id ≡ some row
          → Treated f s now req (elim read as (λ q. Handled) [
            | none ↦ refused s (bad_request "bad_result")
            | some d ↦ save_report f s now row req.task_id d
          ])
      of_doc row none same up there = turned_away (bad_request "bad_result") refl
      of_doc row (some d) same up there = elim (Bool-cases f.save_fails) [
        | inl down ↦ rw (down, save_report) (turned_away store_error refl)
        | inr works ↦ simp (works, save_report) (went_through row d named same up there works)
      ]

  read-Treated :
      (req : ResultReq) (doc : Document)
      → (req.task_id == "") ≡ false
      → req.result ≡ doc
      → Treated f s now req (read_document f s now req.task_id doc)
  read-Treated req missing named is = turned_away (bad_request "bad_result") refl
  read-Treated req not_json named is = turned_away (bad_request "bad_result") refl
  read-Treated req violation named is = turned_away (bad_request "schema_violation") refl
  read-Treated req (conforming doc) named is = conforming-Treated req doc named is

  pub result_report-Treated :
      (req : ResultReq) → Treated f s now req (result_report f s now (some req))
  unfolding result_report
  result_report-Treated req = elim (Bool-cases (req.task_id == "")) [
    | inl unnamed ↦ rw unnamed (turned_away (bad_request "bad_result") refl)
    | inr named ↦ rw named (read-Treated req req.result named refl)
  ]

-- A report that goes through all checks, as the handler computes it.
went_through_again :
    (f : Faults) (s : MemStore) (now : ℕ) (req : ResultReq) (row : TaskRow) (d : ResultDoc)
    → (req.task_id == "") ≡ false
    → req.result ≡ conforming (some d)
    → f.get_task_fails req.task_id ≡ false
    → get_task s req.task_id ≡ some row
    → f.save_fails ≡ false
    → result_report f s now (some req) ≡ saved_report s now row req.task_id d
unfolding result_report conforming_result save_report
went_through_again f s now req row d named is up there works = rw (named, is, up, there, works) refl

save_result_with_outbox-get_task :
    (s : MemStore) (rec : ResultRecord) (ev : OutboxEvent) (now : ℕ) (id : String)
    → get_task (save_result_with_outbox s rec ev now).0 id ≡ get_task s id
unfolding save_result_with_outbox enqueue get_task
save_result_with_outbox-get_task s rec ev now id = ground arith

-- The record says what the document says, for the task.
pub record IsReport (task_id : String) (d : ResultDoc) (rec : ResultRecord) : Type 0 where
  pub of_task : rec.task_id ≡ task_id
  pub task : rec.result.task_id ≡ task_id
  pub status : rec.result.status ≡ d.status
  pub exit_code : rec.result.exit_code ≡ d.exit_code
  pub duration_sec : rec.result.duration_sec ≡ d.duration_sec
  pub cases_total : rec.result.cases_total ≡ d.cases_total
  pub cases_failed : rec.result.cases_failed ≡ d.cases_failed
  pub signatures_hit : rec.result.signatures_hit ≡ d.signatures_hit
  pub metrics : rec.result.metrics ≡ d.metrics
  pub attachments : rec.result.attachments ≡ d.attachments
  pub failure_scope : rec.result.failure_scope ≡ d.failure_scope
  pub failure_stage : rec.result.failure_stage ≡ d.failure_stage

-- The task had no result: the report's is saved, and is signaled to the task's workflow. Or it had one,
-- which stays, and nothing is signaled.
abbrev pub Settled :
    MemStore
    → ResultReq
    → TaskRow
    → ResultDoc
    → MemStore
    → Option (String × TaskResultSignal)
    → Type 0
Settled s req row d t signaled =
    ((get_result s req.task_id ≡ none)
      × ((saved : ResultRecord) × (get_result t req.task_id ≡ some saved)
          × IsReport req.task_id d saved
          × (signaled ≡ some (row.workflow_id, saved.result))))
    ⊎ ((old : ResultRecord) × (get_result s req.task_id ≡ some old)
        × (get_result t req.task_id ≡ some old)
        × (signaled ≡ none))

-- An accepted report.
pub record IsTaken (s : MemStore) (req : ResultReq) (h : Handled) : Type 0 where
  pub row : TaskRow
  pub doc : ResultDoc
  pub sent : req.result ≡ conforming (some doc)
  pub known : get_task s req.task_id ≡ some row
  pub still_known : get_task h.store req.task_id ≡ some row
  pub accept : is_accepted h.response ≡ true
  pub settled : Settled s req row doc h.store h.signaled
  pub queued : has_key (result_key req.task_id) h.store.outbox ≡ true

-- A report that went through once goes through again, to no effect, wherever the task, a result of it
-- and the event are in the store.
repeated :
    (g : Faults) (t : MemStore) (later : ℕ) (req : ResultReq) (d : ResultDoc) (row : TaskRow)
    (old : ResultRecord)
    → (req.task_id == "") ≡ false
    → req.result ≡ conforming (some d)
    → (g.get_task_fails req.task_id ≡ false) × (g.save_fails ≡ false)
    → (get_task t req.task_id ≡ some row) × (get_result t req.task_id ≡ some old)
    → has_key (result_key req.task_id) t.outbox ≡ true
    → result_report g t later (some req) ≡ refused t accepted
unfolding get_result
repeated g t later req d row old named is (up, works) (there, found) keyed =
    let sig : TaskResultSignal = signal_of req.task_id d in
    let rec : ResultRecord = record { task_id = req.task_id; result = sig } in
    went_through_again g t later req row d named is up there works
    ∙ ap
        (λ p. record {
          store = p.0;
          response = accepted;
          signaled = if p.1 then some (row.workflow_id, sig) else none;
        })
        (save_again t rec (result_event row req.task_id sig) later old found keyed)

saved_report-Settled :
    (s : MemStore) (now : ℕ) (req : ResultReq) (row : TaskRow) (d : ResultDoc)
    → let h = saved_report s now row req.task_id d in
      Settled s req row d h.store h.signaled
      × (has_key (result_key req.task_id) h.store.outbox ≡ true)
unfolding get_result
saved_report-Settled s now req row d =
    let sig : TaskResultSignal = signal_of req.task_id d in
    let rec : ResultRecord = record { task_id = req.task_id; result = sig } in
    let (queued, cases) = save_cases s rec (result_event row req.task_id sig) now in
    elim cases [
      | inl (free, there, new) ↦ (
        inl (
          free,
          (
            rec,
            there,
            record {
              of_task = refl;
              task = refl;
              status = refl;
              exit_code = refl;
              duration_sec = refl;
              cases_total = refl;
              cases_failed = refl;
              signatures_hit = refl;
              metrics = refl;
              attachments = refl;
              failure_scope = refl;
              failure_stage = refl;
            },
            rw new refl,
          ),
        ),
        queued,
      )
      | inr (old, found, stays, known) ↦ (inr (old, found, stays, rw known refl), queued)
    ]

-- A report is refused, and then nothing is written and nothing is signaled; or its document conforms,
-- its task is known, and it is accepted. If the task had no result, the store then holds one that says
-- in every field what the document says, and that result is signaled to the task's workflow; otherwise
-- the earlier result stays and nothing is signaled. An event under the task's key is in the outbox.
-- The same report at any time, with any faults but of reading the task and saving, and in any store
-- that has the task, a result of it and that event, is then accepted, writes nothing and signals
-- nothing.
pub result_report_outcome :
    (f g : Faults) (s t : MemStore) (now later : ℕ) (req : ResultReq) (row : TaskRow)
    (old : ResultRecord)
    → (g.get_task_fails req.task_id ≡ false) × (g.save_fails ≡ false)
    → (get_task t req.task_id ≡ some row) × (get_result t req.task_id ≡ some old)
    → has_key (result_key req.task_id) t.outbox ≡ true
    → let h = result_report f s now (some req) in
      ((is_accepted h.response ≡ false) × (h ≡ refused s h.response))
      ⊎ (IsTaken s req h × (result_report g t later (some req) ≡ refused t accepted))
result_report_outcome f g s t now later req row old works there keyed =
    of_Treated (result_report f s now (some req)) (result_report-Treated f s now req)
  where
    of_Treated :
        (h : Handled)
        → Treated f s now req h
        → ((is_accepted h.response ≡ false) × (h ≡ refused s h.response))
          ⊎ (IsTaken s req h × (result_report g t later (some req) ≡ refused t accepted))
    of_Treated _ (turned_away r bad) = inl (bad, refl)
    of_Treated _ (went_through first d named is up known saves) =
        let sig : TaskResultSignal = signal_of req.task_id d in
        let rec : ResultRecord = record { task_id = req.task_id; result = sig } in
        let ev : OutboxEvent = result_event first req.task_id sig in
        let (settled, queued) = saved_report-Settled s now req first d in
        let taken : IsTaken s req (saved_report s now first req.task_id d) = record {
          row = first;
          doc = d;
          sent = is;
          known = known;
          still_known = save_result_with_outbox-get_task s rec ev now req.task_id ∙ known;
          accept = refl;
          settled = settled;
          queued = queued;
        } in
        inr (taken, repeated g t later req d row old named is works there keyed)
