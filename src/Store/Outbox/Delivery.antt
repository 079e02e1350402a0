-- ===== src/Store/Outbox/Delivery.antt =====
-- The outbox over time: its numbering and keys, and what becomes of a row under any calls.
use mathlib.Core.List.{◌++◌}
use hermes_ai_devops.Common.{
  ℕ, ◌+◌, ◌≤◌, ◌<◌, ◌≡◌, refl, ◌≢◌, inl, inr, String, true, false, some, List, [], ◌∷◌, All, arith,
  eq_iff, ◌==◌, string_eq, nat_eq, Bool-cases, Option-cases, if◌then◌else◌, ◌∙◌, ap,
}
use hermes_ai_devops.Common.Dict.{lookup}
use hermes_ai_devops.Store.State.{MemStore, OutboxEvent, OutboxRow, Payload, ResultRecord}
use hermes_ai_devops.Store.Outbox.{
  has_key, find_id, update_id, enqueue, save_result_with_outbox, mark_published, mark_failed,
  publish_row, fail_row,
}
use hermes_ai_devops.Store.Outbox.Keys.{has_key-append}

-- A call that writes the outbox.
pub data OutboxOp : Type 0 where
  save_result : ResultRecord → OutboxEvent → ℕ → OutboxOp
  emit : OutboxEvent → ℕ → OutboxOp
  publish : ℕ → OutboxOp
  fail : ℕ → String → OutboxOp

unfoldable pub outbox_step : MemStore → OutboxOp → MemStore
outbox_step s (save_result rec ev now) = (save_result_with_outbox s rec ev now).0
outbox_step s (emit ev now) = enqueue s ev now
outbox_step s (publish id) = mark_published s id
outbox_step s (fail id cause) = mark_failed s id cause

unfoldable pub outbox_run : MemStore → List OutboxOp → MemStore
outbox_run s [] = s
outbox_run s (op ∷ ops) = outbox_run (outbox_step s op) ops

-- The ids rise from above `lo` to `hi` at most.
abbrev pub Numbered : ℕ → ℕ → List OutboxRow → Type 0
Numbered lo hi [] = lo ≤ hi
Numbered lo hi (r ∷ rs) = (lo < r.ev.id) × Numbered r.ev.id hi rs

-- No key stands twice.
abbrev pub Distinct : List OutboxRow → Type 0
Distinct [] = Unit {0}
Distinct (r ∷ rs) = (has_key r.ev.event_key rs ≡ false) × Distinct rs

pub record IsSound (s : MemStore) : Type 0 where
  pub numbered : Numbered 0 s.outbox_seq s.outbox
  pub distinct : Distinct s.outbox

Numbered-append :
    (lo hi : ℕ) (rs : List OutboxRow) (r : OutboxRow)
    → Numbered lo hi rs
    → r.ev.id ≡ hi + 1
    → Numbered lo (hi + 1) (rs ++ r ∷ [])
Numbered-append lo hi [] r n e = (omega arith, omega arith)
Numbered-append lo hi (x ∷ rs) r n e = (n.0, Numbered-append x.ev.id hi rs r n.1 e)

Distinct-append :
    (rs : List OutboxRow) (r : OutboxRow)
    → Distinct rs
    → has_key r.ev.event_key rs ≡ false
    → Distinct (rs ++ r ∷ [])
unfolding has_key
Distinct-append [] r d e = (refl, tt)
Distinct-append (x ∷ rs) r d e = (
  ground (
    arith,
    has_key-append x.ev.event_key rs (r ∷ []),
    eq_iff x.ev.event_key r.ev.event_key,
    eq_iff r.ev.event_key x.ev.event_key,
  ),
  Distinct-append rs r d.1 (ground (arith, eq_iff x.ev.event_key r.ev.event_key)),
)

-- A write through the id that leaves ids and keys alone.
module _ (id : ℕ) (f : OutboxRow → OutboxRow) (same_id : (r : OutboxRow) → (f r).ev.id ≡ r.ev.id)
    (same_key : (r : OutboxRow) → (f r).ev.event_key ≡ r.ev.event_key) where
  has_key-update_id :
      (k : String) (rs : List OutboxRow) → has_key k (update_id id f rs) ≡ has_key k rs
  unfolding has_key update_id
  has_key-update_id k [] = refl
  has_key-update_id k (r ∷ rs) = ground (arith, same_key r, has_key-update_id k rs)

  Numbered-update_id :
      (lo hi : ℕ) (rs : List OutboxRow) → Numbered lo hi rs → Numbered lo hi (update_id id f rs)
  unfolding update_id
  Numbered-update_id lo hi [] n = n
  Numbered-update_id lo hi (r ∷ rs) n = elim (Bool-cases (r.ev.id == id)) [
    | inl hit ↦ rw (hit, same_id r) n
    | inr miss ↦ rw miss (n.0, Numbered-update_id r.ev.id hi rs n.1)
  ]

  Distinct-update_id : (rs : List OutboxRow) → Distinct rs → Distinct (update_id id f rs)
  unfolding update_id
  Distinct-update_id [] d = d
  Distinct-update_id (r ∷ rs) d = elim (Bool-cases (r.ev.id == id)) [
    | inl hit ↦ rw (hit, same_key r) d
    | inr miss ↦ rw miss (has_key-update_id r.ev.event_key rs ∙ d.0, Distinct-update_id rs d.1)
  ]

  IsSound-update :
      (s : MemStore) → IsSound s → IsSound (record s { outbox = update_id id f s.outbox })
  IsSound-update s v = record {
    numbered = Numbered-update_id 0 s.outbox_seq s.outbox v.numbered;
    distinct = Distinct-update_id s.outbox v.distinct;
  }

enqueue-IsSound :
    (s : MemStore) (ev : OutboxEvent) (now : ℕ) → IsSound s → IsSound (enqueue s ev now)
unfolding enqueue
enqueue-IsSound s ev now v = elim (Bool-cases (has_key ev.event_key s.outbox)) [
  | inl old ↦ rw old v
  | inr new ↦ rw new (record {
    numbered = Numbered-append 0 s.outbox_seq s.outbox _ v.numbered refl;
    distinct = Distinct-append s.outbox _ v.distinct new;
  })
]

fail_row_key : (cause : String) (r : OutboxRow) → (fail_row cause r).ev.event_key ≡ r.ev.event_key
fail_row_key cause r = ground arith

fail_row_id : (cause : String) (r : OutboxRow) → (fail_row cause r).ev.id ≡ r.ev.id
fail_row_id cause r = ground arith

-- Saving a result treats the outbox as enqueueing its event does.
save_result_outbox :
    (s : MemStore) (rec : ResultRecord) (ev : OutboxEvent) (now : ℕ)
    → let t = (save_result_with_outbox s rec ev now).0 in
      (t.outbox ≡ (enqueue s ev now).outbox) × (t.outbox_seq ≡ (enqueue s ev now).outbox_seq)
unfolding save_result_with_outbox enqueue
save_result_outbox s rec ev now = elim (Option-cases (lookup rec.task_id s.results)) [
  | inl missing ↦ rw (missing, save_result_with_outbox) (ground arith, ground arith)
  | inr (old, there) ↦ rw (there, save_result_with_outbox) (refl, refl)
]

-- Every call keeps the rows numbered upwards and the keys distinct: an event that is offered again
-- under its key makes no second row.
pub outbox_step-IsSound : (s : MemStore) (op : OutboxOp) → IsSound s → IsSound (outbox_step s op)
unfolding outbox_step mark_published mark_failed
outbox_step-IsSound s (emit ev now) v = enqueue-IsSound s ev now v
outbox_step-IsSound s (publish id) v = IsSound-update id publish_row (λ r. refl) (λ r. refl) s v
outbox_step-IsSound s (fail id cause) v =
    IsSound-update id (fail_row cause) (fail_row_id cause) (fail_row_key cause) s v
outbox_step-IsSound s (save_result rec ev now) v =
    let (same_rows, same_seq) = save_result_outbox s rec ev now in
    let w = enqueue-IsSound s ev now v in
    record { numbered = rw (same_rows, same_seq) w.numbered; distinct = rw same_rows w.distinct }

find_id-append :
    (id : ℕ) (rs ys : List OutboxRow) (r : OutboxRow)
    → find_id id rs ≡ some r
    → find_id id (rs ++ ys) ≡ some r
unfolding find_id
find_id-append id [] ys r e = cc
find_id-append id (x ∷ rs) ys r e = ground (arith, find_id-append id rs ys r)

find_id-update :
    (id other : ℕ) (f : OutboxRow → OutboxRow) (rs : List OutboxRow) (r : OutboxRow)
    → ((q : OutboxRow) → (f q).ev.id ≡ q.ev.id)
    → find_id id rs ≡ some r
    → find_id id (update_id other f rs) ≡ some (if other == id then f r else r)
unfolding find_id update_id
find_id-update id other f [] r same e = cc
find_id-update id other f (x ∷ rs) r same e =
    ground (arith, same x, find_id-update id other f rs r same)

-- The row with the id has the property.
abbrev pub RowAt : ℕ → (OutboxRow → Type 0) → MemStore → Type 0
RowAt id P s = (r : OutboxRow) × (find_id id s.outbox ≡ some r) × P r

-- What an allowed call does to that row.
abbrev pub row_step : ℕ → OutboxOp → OutboxRow → OutboxRow
row_step id (save_result rec ev now) r = r
row_step id (emit ev now) r = r
row_step id (publish other) r = if other == id then publish_row r else r
row_step id (fail other cause) r = if other == id then fail_row cause r else r

find_id-enqueue :
    (s : MemStore) (ev : OutboxEvent) (now id : ℕ) (r : OutboxRow)
    → find_id id s.outbox ≡ some r
    → find_id id (enqueue s ev now).outbox ≡ some r
unfolding enqueue
find_id-enqueue s ev now id r e = elim (Bool-cases (has_key ev.event_key s.outbox)) [
  | inl old ↦ rw old e
  | inr new ↦ rw new (find_id-append id s.outbox _ r e)
]

-- No call removes a row or changes another row than the one it names.
pub outbox_step-row :
    (s : MemStore) (op : OutboxOp) (id : ℕ) (r : OutboxRow)
    → find_id id s.outbox ≡ some r
    → find_id id (outbox_step s op).outbox ≡ some (row_step id op r)
unfolding outbox_step mark_published mark_failed
outbox_step-row s (emit ev now) id r e = find_id-enqueue s ev now id r e
outbox_step-row s (save_result rec ev now) id r e =
    rw (save_result_outbox s rec ev now).0 (find_id-enqueue s ev now id r e)
outbox_step-row s (publish other) id r e =
    find_id-update id other publish_row s.outbox r (λ q. refl) e
outbox_step-row s (fail other cause) id r e =
    find_id-update id other (fail_row cause) s.outbox r (fail_row_id cause) e

outbox_run-RowAt :
    (P : OutboxRow → Type 0) (Allowed : OutboxOp → Type 0) (id : ℕ)
    → ((op : OutboxOp) (r : OutboxRow) → Allowed op → P r → P (row_step id op r))
    → (ops : List OutboxOp) (s : MemStore) → All Allowed ops
    → RowAt id P s
    → RowAt id P (outbox_run s ops)
unfolding outbox_run
outbox_run-RowAt P Allowed id keep [] s ok h = h
outbox_run-RowAt P Allowed id keep (op ∷ ops) s (ok, oks) (r, e, p) =
    outbox_run-RowAt P Allowed id keep ops (outbox_step s op) oks
      (row_step id op r, outbox_step-row s op id r e, keep op r ok p)

-- The row is yet to be delivered, with this key and payload.
pub record IsPending (key : String) (payload : Payload) (r : OutboxRow) : Type 0 where
  pub unpublished : r.published ≡ false
  pub keyed : r.ev.event_key ≡ key
  pub content : r.ev.payload ≡ payload

abbrev pub Spares : ℕ → OutboxOp → Type 0
Spares id (publish other) = other ≢ id
Spares id _ = Unit {0}

-- Nothing but MarkPublished of its own id takes a row out of the backlog: through any other calls it
-- stays unpublished, with its key and its payload.
pub unpublished_kept :
    (id : ℕ) (key : String) (payload : Payload) (ops : List OutboxOp) (s : MemStore)
    → All (Spares id) ops
    → RowAt id (IsPending key payload) s
    → RowAt id (IsPending key payload) (outbox_run s ops)
unpublished_kept id key payload ops s spared h =
    outbox_run-RowAt (IsPending key payload) (Spares id) id keep ops s spared h
  where
    keep :
        (op : OutboxOp) (r : OutboxRow)
        → Spares id op
        → IsPending key payload r
        → IsPending key payload (row_step id op r)
    keep (publish other) r ok p = ground arith
    keep (fail other cause) r ok p = ground arith
    keep (emit ev now) r ok p = p
    keep (save_result rec ev now) r ok p = p

-- A published row is final: no calls change it, late reports of a failed delivery included.
pub published_final :
    (id : ℕ) (row : OutboxRow) (ops : List OutboxOp) (s : MemStore)
    → row.published ≡ true
    → find_id id s.outbox ≡ some row
    → find_id id (outbox_run s ops).outbox ≡ some row
published_final id row ops s done e =
    let (r, found, same) =
      outbox_run-RowAt (λ r. r ≡ row) (λ op. Unit {0}) id keep ops s (all_unit ops)
        (row, e, refl) in
    found ∙ ap some same
  where
    keep : (op : OutboxOp) (r : OutboxRow) → Unit {0} → r ≡ row → row_step id op r ≡ row
    keep (publish other) r ok p = ground arith
    keep (fail other cause) r ok p = ground arith
    keep (emit ev now) r ok p = p
    keep (save_result rec ev now) r ok p = p

    all_unit : (ops : List OutboxOp) → All (λ op. Unit {0}) ops
    all_unit [] = tt
    all_unit (op ∷ ops) = (tt, all_unit ops)
