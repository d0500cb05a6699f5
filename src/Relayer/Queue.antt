-- ===== src/Relayer/Queue.antt =====
-- `rollback_job` (backend/app/relayer/queue.py): undoing the optimistic fill of a job that will never
-- land. What a session has written to an object stands in its row at once, as after the flush with
-- which the source begins; `expected` is the status that the caller's object shows.
pub mod Rollback
use over_under.Prelude.{
  ℕ, Bool, true, false, ◌||◌, Option, none, some, List, [], ◌∷◌, map, ◌==◌, if◌then◌else◌,
}
use over_under.Prelude.Table.{find, modify}
use over_under.Db.{Db, Order, Trade, TradeStatus, RelayJob, JobStatus, Note, job_key}
use over_under.Orderbook.Rows.{lower_filled}

-- `status in TERMINAL`, `status in IN_FLIGHT`
abbrev pub is_terminal : JobStatus → Bool
is_terminal JobStatus.confirmed = true
is_terminal JobStatus.failed = true
is_terminal JobStatus.cancelled = true
is_terminal _ = false

abbrev pub in_flight : JobStatus → Bool
in_flight JobStatus.sending = true
in_flight JobStatus.sent = true
in_flight _ = false

abbrev pub same_status : JobStatus → JobStatus → Bool
same_status JobStatus.pending JobStatus.pending = true
same_status JobStatus.sending JobStatus.sending = true
same_status JobStatus.sent JobStatus.sent = true
same_status JobStatus.confirmed JobStatus.confirmed = true
same_status JobStatus.failed JobStatus.failed = true
same_status JobStatus.cancelled JobStatus.cancelled = true
same_status _ _ = false

-- `UPDATE orders SET filled = ... WHERE order_hash IN (taker_hash, maker_hash)`
abbrev pub lower_where : ℕ → ℕ → ℕ → Order → Order
lower_where taker_hash maker_hash f r =
    if r.order_hash == taker_hash || r.order_hash == maker_hash then lower_filled f r else r

abbrev pub links_to : ℕ → Option ℕ → Bool
links_to id none = false
links_to id (some j) = j == id

-- `UPDATE trades SET status = 'failed' WHERE relay_job_id = job.id`
abbrev pub fail_where : ℕ → Trade → Trade
fail_where id t = if links_to id t.relay_job_id then record t { status = TradeStatus.failed } else t

abbrev pub close_job : JobStatus → Note → RelayJob → RelayJob
close_job status reason j = record j { status = status; last_error = reason }

-- The statements behind the guarded update of the job's row.
unfoldable pub undo_fill : Db → RelayJob → JobStatus → Note → Db
undo_fill db row status reason = record db {
  jobs = modify job_key row.id (close_job status reason) db.jobs;
  orders = map (lower_where row.taker_hash row.maker_hash row.fill_amount) db.orders;
  trades = map (fail_where row.id) db.trades;
}

-- The guarded update on the job's row, if it is there.
guarded : Db → Option RelayJob → JobStatus → JobStatus → Note → Bool × Db
unfolding undo_fill
guarded db none expected status reason = (false, db)
guarded db (some row) expected status reason =
    if same_status row.status expected then (true, undo_fill db row status reason) else (false, db)

-- Whether the job was rolled back, and the database.
unfoldable pub rollback_job : Db → ℕ → JobStatus → JobStatus → Note → Bool × Db
unfolding guarded
rollback_job db id expected status reason =
    if is_terminal expected
    then (false, db)
    else guarded db (find job_key id db.jobs) expected status reason
