-- ===== src/Store/Outbox/Claim.antt =====
-- What ClaimUnpublished hands out, the idempotence of SaveResultWithOutbox, and the backlog report.
use hermes_ai_devops.Common.{
  ℕ, zero, suc, ◌+◌, max, ◌≡◌, refl, ◌⊎◌, inl, inr, true, false, not, none, some, List, [], ◌∷◌,
  map, length, filter, take, arith, ◌==◌, string_eq, nat_eq, leb, Bool-cases, Option-cases, ◌∙◌, ap,
}
use hermes_ai_devops.Common.Dict.{lookup, insert, lookup-insert_self}
use hermes_ai_devops.Store.State.{MemStore, OutboxEvent, OutboxRow, ResultRecord}
use hermes_ai_devops.Store.Outbox.{
  has_key, enqueue, save_result_with_outbox, claim_from, claim_unpublished, BacklogScan, scan_row,
  scan_rows, empty_scan, outbox_backlog,
}
use hermes_ai_devops.Store.Outbox.Keys.{has_key-enqueue}

-- The rows that wait for delivery, in the order of their ids.
abbrev pub pending : List OutboxRow → List OutboxRow
pending = filter (λ r. not r.published)

claim_from-eq-take :
    (limit room taken : ℕ) (rs : List OutboxRow)
    → limit ≡ taken + suc room
    → claim_from limit taken rs ≡ take (suc room) (map (λ r. r.ev) (pending rs))
unfolding claim_from
claim_from-eq-take limit room taken [] e = refl
claim_from-eq-take limit zero taken (r ∷ rs) e = elim (Bool-cases r.published) [
  | inl done ↦ rw done (claim_from-eq-take limit zero taken rs e)
  | inr waits ↦ rw waits (ground arith)
]
claim_from-eq-take limit (suc room) taken (r ∷ rs) e = elim (Bool-cases r.published) [
  | inl done ↦ rw done (claim_from-eq-take limit (suc room) taken rs e)
  | inr waits ↦
      rw waits (ground (arith, claim_from-eq-take limit room (taken + 1) rs (omega arith)))
]

claim_from-zero : (rs : List OutboxRow) → claim_from 0 0 rs ≡ take 1 (map (λ r. r.ev) (pending rs))
unfolding claim_from
claim_from-zero [] = refl
claim_from-zero (r ∷ rs) = elim (Bool-cases r.published) [
  | inl done ↦ rw done (claim_from-zero rs)
  | inr waits ↦ rw waits
]

-- ClaimUnpublished hands out the events of the rows that wait, in the order of their ids and nothing
-- else, `limit` of them at most; a limit of 0 is taken for 1.
pub claim_unpublished-eq-take :
    (s : MemStore) (limit : ℕ)
    → claim_unpublished s limit ≡ take (max limit 1) (map (λ r. r.ev) (pending s.outbox))
unfolding claim_unpublished
claim_unpublished-eq-take s zero = claim_from-zero s.outbox
claim_unpublished-eq-take s (suc room) =
    let m : max (suc room) 1 ≡ suc room = omega arith in
    rw m (claim_from-eq-take (suc room) room 0 s.outbox (omega arith))

enqueue_again :
    (s : MemStore) (ev : OutboxEvent) (now : ℕ)
    → has_key ev.event_key s.outbox ≡ true
    → enqueue s ev now ≡ s
unfolding enqueue
enqueue_again s ev now e = rw e

pub save_again :
    (s : MemStore) (rec : ResultRecord) (ev : OutboxEvent) (now : ℕ) (old : ResultRecord)
    → lookup rec.task_id s.results ≡ some old
    → has_key ev.event_key s.outbox ≡ true
    → save_result_with_outbox s rec ev now ≡ (s, false)
unfolding save_result_with_outbox
save_again s rec ev now old there keyed =
    rw (there, save_result_with_outbox) (rw (enqueue_again s ev now keyed))

enqueue-results :
    (s : MemStore) (ev : OutboxEvent) (now : ℕ) → (enqueue s ev now).results ≡ s.results
unfolding enqueue
enqueue-results s ev now = ground arith

save_first :
    (s : MemStore) (rec : ResultRecord) (ev : OutboxEvent) (now : ℕ)
    → lookup rec.task_id s.results ≡ none
    → save_result_with_outbox s rec ev now
      ≡ (enqueue (record s { results = insert rec.task_id rec s.results }) ev now, true)
unfolding save_result_with_outbox
save_first s rec ev now e = rw (e, save_result_with_outbox)

save_later :
    (s : MemStore) (rec : ResultRecord) (ev : OutboxEvent) (now : ℕ) (old : ResultRecord)
    → lookup rec.task_id s.results ≡ some old
    → save_result_with_outbox s rec ev now ≡ (enqueue s ev now, false)
unfolding save_result_with_outbox
save_later s rec ev now old e = rw (e, save_result_with_outbox)

-- After a result has been saved its event is there; and its row is there, and was inserted, or the
-- earlier row of the task still is, and nothing was inserted.
pub save_cases :
    (s : MemStore) (rec : ResultRecord) (ev : OutboxEvent) (now : ℕ)
    → let (t, inserted) = save_result_with_outbox s rec ev now in
      (has_key ev.event_key t.outbox ≡ true)
      × (((lookup rec.task_id s.results ≡ none)
            × (lookup rec.task_id t.results ≡ some rec)
            × (inserted ≡ true))
          ⊎ ((old : ResultRecord) × (lookup rec.task_id s.results ≡ some old)
              × (lookup rec.task_id t.results ≡ some old)
              × (inserted ≡ false)))
save_cases s rec ev now = elim (Option-cases (lookup rec.task_id s.results)) [
  | inl missing ↦
      let s1 = record s { results = insert rec.task_id rec s.results } in
      let there =
        ap (lookup rec.task_id) (enqueue-results s1 ev now)
        ∙ lookup-insert_self rec.task_id rec s.results in
      rw (save_first s rec ev now missing) (has_key-enqueue s1 ev now, inl (missing, there, refl))
  | inr (old, found) ↦
      let there = ap (lookup rec.task_id) (enqueue-results s ev now) ∙ found in
      rw (save_later s rec ev now old found)
        (has_key-enqueue s ev now, inr (old, found, there, refl))
]

scan_rows_counts :
    (threshold : ℕ) (b : BacklogScan) (rs : List OutboxRow)
    → ((scan_rows threshold b rs).pending ≡ b.pending + length (pending rs))
      × ((scan_rows threshold b rs).stuck
          ≡ b.stuck + length (filter (λ r. leb threshold r.ev.attempts) (pending rs)))
unfolding scan_rows scan_row
scan_rows_counts threshold b [] = (omega arith, omega arith)
scan_rows_counts threshold b (r ∷ rs) =
    let rest = scan_rows_counts threshold (scan_row threshold b r) rs in
    ground (arith, rest.0, rest.1)

-- The backlog report counts the rows that wait, and among them those that have failed as often as
-- the threshold or oftener; a threshold of 0 is taken for 1.
pub outbox_backlog_counts :
    (s : MemStore) (stuck_attempts now : ℕ)
    → ((outbox_backlog s stuck_attempts now).pending ≡ length (pending s.outbox))
      × ((outbox_backlog s stuck_attempts now).stuck
          ≡ length (filter (λ r. leb (max stuck_attempts 1) r.ev.attempts) (pending s.outbox)))
unfolding outbox_backlog
outbox_backlog_counts s zero now =
    let c = scan_rows_counts 1 empty_scan s.outbox in (omega (arith, c.0), omega (arith, c.1))
outbox_backlog_counts s (suc n) now =
    let c = scan_rows_counts (suc n) empty_scan s.outbox in
    let m : max (suc n) 1 ≡ suc n = omega arith in
    let positive : (suc n == 0) ≡ false = ground arith in
    (
      rw (positive, outbox_backlog) (omega (arith, c.0)),
      rw (positive, outbox_backlog) (rw m (omega (arith, c.1))),
    )
