-- ===== src/Relayer/Queue/Rollback.antt =====
-- Theorems on `rollback_job` (backend/app/relayer/queue.py): its ways to end, rolling back again, and
-- the orders' rows.
use over_under.Prelude.{
  ℕ, ◌+◌, ◌≡◌, ◌⊎◌, inl, inr, refl, true, false, some, arith, Option-cases, Bool-cases, sym, ap,
  subst, ◌∙◌,
}
use over_under.Prelude.Table.{find, modify, find-modify_self, find-key, find-map}
use over_under.Db.{Db, Order, RelayJob, JobStatus, Note, job_key, order_key}
use over_under.Relayer.Queue.{
  is_terminal, same_status, lower_where, close_job, undo_fill, guarded, rollback_job,
}

same_status-eq : (a b : JobStatus) → same_status a b ≡ true → a ≡ b
same_status-eq a b h = ground arith

same_status_refl : (a : JobStatus) → same_status a a ≡ true
same_status_refl a = ground arith

-- The three ways in which a call can end, with what each needs.
pub rollback_job_cases :
    (db : Db) (id : ℕ) (expected status : JobStatus) (reason : Note)
    → ((row : RelayJob) × (find job_key id db.jobs ≡ some row)
        × (row.status ≡ expected)
        × (is_terminal expected ≡ false)
        × (rollback_job db id expected status reason ≡ (true, undo_fill db row status reason)))
      ⊎ (rollback_job db id expected status reason ≡ (false, db))
unfolding rollback_job guarded
rollback_job_cases db id expected status reason = elim (Bool-cases (is_terminal expected)) [
  | inl over ↦ inr (rw over)
  | inr live ↦ elim (Option-cases (find job_key id db.jobs)) [
    | inl absent ↦ inr (rw (live, absent))
    | inr (row, found) ↦ elim (Bool-cases (same_status row.status expected)) [
      | inl same ↦
          inl
            (row, found, same_status-eq row.status expected same, live, rw (live, found) (rw same))
      | inr moved ↦ inr (rw (live, found) (rw moved))
    ]
  ]
]

pub rollback_job_hit :
    (db : Db) (row : RelayJob) (id : ℕ) (status : JobStatus) (reason : Note)
    → find job_key id db.jobs ≡ some row
    → is_terminal row.status ≡ false
    → rollback_job db id row.status status reason ≡ (true, undo_fill db row status reason)
unfolding rollback_job guarded
rollback_job_hit db row id status reason found live =
    rw (live, found) (rw (same_status_refl row.status))

pub closed_row :
    (db : Db) (row : RelayJob) (id : ℕ) (status : JobStatus) (reason : Note)
    → find job_key id db.jobs ≡ some row
    → find job_key id (undo_fill db row status reason).jobs ≡ some (close_job status reason row)
unfolding undo_fill
closed_row db row id status reason found =
    let same : row.id ≡ id = find-key job_key id db.jobs row found in
    subst
      (λ k.
        find job_key id (modify job_key k (close_job status reason) db.jobs)
        ≡ some (close_job status reason row))
      (sym same)
      (find-modify_self job_key id (close_job status reason) db.jobs row (λ x. refl) found)

-- A job that was rolled back to a terminal status is never rolled back again, whatever status a later
-- caller saw: nothing is written, so no fill is undone twice.
pub rollback_job_once :
    (db : Db) (id : ℕ) (expected status : JobStatus) (reason : Note) (seen later : JobStatus)
    (why : Note)
    → is_terminal status ≡ true
    → (rollback_job db id expected status reason).0 ≡ true
    → rollback_job (rollback_job db id expected status reason).1 id seen later why
      ≡ (false, (rollback_job db id expected status reason).1)
rollback_job_once db id expected status reason seen later why final done =
    elim (rollback_job_cases db id expected status reason) [
      | inr missed ↦ absurd (ground arith)
      | inl (row, found, same, live, e) ↦
          rw e (elim (rollback_job_cases (undo_fill db row status reason) id seen later why) [
            | inr missed ↦ missed
            | inl (row', found', same', live', e') ↦
                let closed = closed_row db row id status reason found in
                let equal : row' ≡ close_job status reason row = cc (closed, found') in
                absurd (ground arith)
          ])
    ]

lower_where_restores :
    (taker_hash maker_hash f : ℕ) (o : Order)
    → (o.order_hash ≡ taker_hash) ⊎ (o.order_hash ≡ maker_hash)
    → lower_where taker_hash maker_hash f (record o { filled = o.filled + f }) ≡ o
lower_where_restores taker_hash maker_hash f o h = ground arith

lower_where-key :
    (taker_hash maker_hash f : ℕ) (o : Order)
    → order_key (lower_where taker_hash maker_hash f o) ≡ order_key o
lower_where-key taker_hash maker_hash f o = ground arith

-- Rolling a live job back takes off either of its orders exactly what the match had added: the row
-- is again what it was before the fill.
pub rollback_job_restores :
    (db : Db) (row : RelayJob) (id : ℕ) (status : JobStatus) (reason : Note) (o : Order)
    → find job_key id db.jobs ≡ some row
    → is_terminal row.status ≡ false
    → (o.order_hash ≡ row.taker_hash) ⊎ (o.order_hash ≡ row.maker_hash)
    → find order_key o.id db.orders ≡ some (record o { filled = o.filled + row.fill_amount })
    → find order_key o.id (rollback_job db id row.status status reason).1.orders ≡ some o
unfolding undo_fill
rollback_job_restores db row id status reason o found live mine filled =
    rw (rollback_job_hit db row id status reason found live) (
      find-map order_key o.id (lower_where row.taker_hash row.maker_hash row.fill_amount) db.orders
        (record o { filled = o.filled + row.fill_amount })
        (lower_where-key row.taker_hash row.maker_hash row.fill_amount) filled
      ∙ ap some (lower_where_restores row.taker_hash row.maker_hash row.fill_amount o mine))
