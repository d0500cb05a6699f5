-- ===== src/Orders/Cancel.antt =====
-- DELETE /orders/{order_hash} (backend/app/orderbook/router.py), as one step: what other sessions insert between
-- its SELECTs is not modelled. The jobs are locked by the SELECT, so no
-- other session moves them before the commit.
use over_under.Prelude.{
  ℕ, Bool, true, false, not, ◌&&◌, ◌||◌, Option, none, some, List, [], ◌∷◌, ◌++◌, ltb, ◌==◌,
  if◌then◌else◌, keep, any, sum_by,
}
use over_under.Prelude.Table.{find, modify}
use over_under.Db.{Db, Order, RelayJob, JobStatus, Note, order_key, job_key}
use over_under.Orderbook.Rows.{set_cancelled}
use over_under.Relayer.Queue.{rollback_job, in_flight, same_status}
use over_under.Orders.Post.{order_hash_key}

pub record Cancelled : Type 0 where
  pub cancelled_jobs : List ℕ
  pub in_flight_jobs : List ℕ
  pub onchain_cancel_required : Bool

pub data CancelAnswer : Type 0 where
  not_found not_maker : CancelAnswer
  done : Cancelled → CancelAnswer

abbrev pub is_of : ℕ → RelayJob → Bool
is_of h j = j.taker_hash == h || j.maker_hash == h

-- In the order of their ids, as the rows stand.
abbrev pub jobs_of : ℕ → List RelayJob → List RelayJob
jobs_of h jobs = keep (is_of h) jobs

abbrev pub has_hashes : RelayJob → Bool
has_hashes j = elim j.tx_hashes [ [] ↦ false | x ∷ xs ↦ true ]

abbrev pub is_pending : RelayJob → Bool
is_pending j = same_status j.status JobStatus.pending

abbrev pub unsent_fill : RelayJob → ℕ
unsent_fill j = if is_pending j && not (has_hashes j) then j.fill_amount else 0

abbrev pub sent_once : RelayJob → Bool
sent_once j = has_hashes j || in_flight j.status || same_status j.status JobStatus.confirmed

-- Whether the signed order has been, or may be, in the calldata of a transaction.
unfoldable pub exposed : Order → List RelayJob → Bool
exposed o jobs = ltb (sum_by unsent_fill jobs) o.filled || any sent_once jobs

-- The database and the ids of the jobs that were cancelled and of those in flight.
pub record Sweep : Type 0 where
  pub db : Db
  pub cancelled_jobs : List ℕ
  pub in_flight_jobs : List ℕ

-- `job.status` when the rollback did not take place: as the refresh reads it.
abbrev pub moved_in_flight : Option RelayJob → Bool
moved_in_flight none = false
moved_in_flight (some j) = in_flight j.status

abbrev pub note_job : Sweep → ℕ → Bool × Db → Sweep
note_job w id (true, db) = record w { db = db; cancelled_jobs = w.cancelled_jobs ++ id ∷ [] }
note_job w id (false, db) =
    if moved_in_flight (find job_key id db.jobs)
    then record w { in_flight_jobs = w.in_flight_jobs ++ id ∷ [] }
    else w

-- One round of the loop over the jobs.
unfoldable pub sweep_job : Sweep → RelayJob → Sweep
unfolding rollback_job
sweep_job w j =
    if is_pending j
    then note_job w j.id (rollback_job w.db j.id j.status JobStatus.cancelled Note.order_cancelled)
    else if in_flight j.status
    then record w { in_flight_jobs = w.in_flight_jobs ++ j.id ∷ [] }
    else w

unfoldable pub sweep : Sweep → List RelayJob → Sweep
unfolding sweep_job
sweep w [] = w
sweep w (j ∷ jobs) = sweep (sweep_job w j) jobs

abbrev pub begin_sweep : Db → Order → Sweep
begin_sweep db o = record {
  db = record db { orders = modify order_key o.id set_cancelled db.orders };
  cancelled_jobs = [];
  in_flight_jobs = [];
}

abbrev pub some_id : List ℕ → Bool
some_id [] = false
some_id (id ∷ ids) = true

abbrev pub answer : Bool → Sweep → Db × CancelAnswer
answer was_exposed w = (
  w.db,
  CancelAnswer.done (record {
    cancelled_jobs = w.cancelled_jobs;
    in_flight_jobs = w.in_flight_jobs;
    onchain_cancel_required = was_exposed || some_id w.in_flight_jobs;
  }),
)

unfoldable pub cancel_row : Db → ℕ → ℕ → Option Order → Db × CancelAnswer
unfolding exposed sweep
cancel_row db user h none = (db, CancelAnswer.not_found)
cancel_row db user h (some o) =
    let jobs = jobs_of h db.jobs in
    if o.maker == user
    then answer (exposed o jobs) (sweep (begin_sweep db o) jobs)
    else (db, CancelAnswer.not_maker)

unfoldable pub cancel : Db → ℕ → ℕ → Db × CancelAnswer
unfolding cancel_row
cancel db user h = cancel_row db user h (find order_hash_key h db.orders)
