-- ===== src/Relayer/Worker/Settle.antt =====
-- What `_reconcile` calls on a job in flight (backend/app/relayer/worker.py): receipts, rebroadcasts,
-- and the lag window behind "nonce too low".
use over_under.Prelude.{
  ℕ, ◌+◌, ◌*◌, max, Bool, true, false, ◌&&◌, Option, none, some, List, ◌∷◌, map, ltb, leb, ◌==◌,
  if◌then◌else◌,
}
use over_under.Prelude.Table.{find}
use over_under.Db.{Db, RelayJob, JobStatus, Note, job_key}
use over_under.Relayer.Nonce.{resync}
use over_under.Relayer.Queue.{rollback_job}
use over_under.Relayer.Worker.{
  Answer, ok, rpc_error, Receipt, Sent, accepted, nonce_low, known, underpriced, insufficient_funds,
  revert, transient, Chain, Context, State, Run, done, raised, ◌>>=◌, settings_of, put, reloaded,
  defer, note, or_now, or_zero, find_receipt, has_fill_log, mark_trade, confirm, Verdict, landed,
  may_be, absent, fill_verdict,
}
use over_under.Relayer.Worker.Retire.{retire_after_revert}

-- `if job.status == "sending": ...` before a confirmation.
abbrev pub promoted : Context → RelayJob → RelayJob
promoted c j = elim j.status [
  | JobStatus.sending ↦ record j { status = JobStatus.sent; sent_at = or_now j.sent_at c.now }
  | _ ↦ j
]

-- The receipt shows the fill: it waits for the confirmations that are asked for. A failing read of
-- the latest block raises.
unfoldable pub settle_success : Context → Chain → State → ℕ → ℕ → Run
settle_success c chain st mined bn =
    let need = max 1 (settings_of c).relayer_confirmations in
    let st' : State = record st { job = promoted c st.job } in
    if leb need 1 then done (confirm c st' mined bn) else elim chain.latest_block [
      | rpc_error ↦ raised st'
      | ok latest ↦
          if ltb (latest.number + 1) (need + bn) then done st' else done (confirm c st' mined bn)
    ]

-- The rollback of a mined failure: whether the job was rolled back, and the state behind it.
unfoldable pub after_rollback : State → Bool × Db → Note → Bool × State
after_rollback st (rolled, db) reason =
    (rolled, record st { db = db; job = reloaded st.job (find job_key st.job.id db.jobs) })

unfoldable pub record_mined : State → ℕ → ℕ → State
record_mined st mined bn = record st {
  db = record st.db {
    trades = map (mark_trade st.job.id (λ t. record t { tx_hash = some mined })) st.db.trades;
  };
  job = record st.job { tx_hash = some mined; block_number = some bn };
  stats = record st.stats { failed = st.stats.failed + 1 };
}

abbrev pub retired : Context → Chain → Bool → State → State
retired c chain true st = record st { db = retire_after_revert c chain (record st { db = put st }) }
retired c chain false st = st

-- The receipt is a revert, or shows no fill of this job.
unfoldable pub settle_failure : Context → Chain → State → ℕ → ℕ → Note → Run
unfolding after_rollback record_mined
settle_failure c chain st mined bn why =
    let (rolled, st') =
      after_rollback st (rollback_job (put st) st.job.id st.job.status JobStatus.failed why) why in
    done (retired c chain rolled (record_mined st' mined bn))

-- `_apply_receipt`
unfoldable pub apply_receipt : Context → Chain → State → Receipt → ℕ → Run
unfolding settle_success settle_failure
apply_receipt c chain st r mined =
    if r.status == 1 && has_fill_log c st.job r
    then settle_success c chain st mined r.block_number
    else settle_failure c chain st mined r.block_number
        (if r.status == 1 then Note.receipt_without_fill else Note.receipt_reverted)

-- `_resync`: a failing read raises.
unfoldable pub resync_nonce : Context → State → Run
resync_nonce c st = elim c.chain_after.pending_nonce [
  | rpc_error ↦ raised st
  | ok pending ↦ done (record st { cache = resync pending })
]

-- `_broadcast` of a stored transaction; an empty one is no transaction to any node.
abbrev pub broadcast : Context → Option ℕ → Sent
broadcast c none = transient
broadcast c (some raw) = c.chain.send_raw raw

abbrev sent_out : Option ℕ → List ℕ → List ℕ
sent_out none raws = raws
sent_out (some raw) raws = raw ∷ raws

abbrev pub with_broadcast : Option ℕ → State → State
with_broadcast raw st = record st { broadcast = sent_out raw st.broadcast }

-- The second lookup of `_nonce_consumed`; a lookup that fails finds nothing.
abbrev pub found_or_none : Answer (Option (Receipt × ℕ)) → Option (Receipt × ℕ)
found_or_none rpc_error = none
found_or_none (ok found) = found

-- What the second lookup makes of the job.
unfoldable pub after_lookup : Context → State → Option (Receipt × ℕ) → Run
unfolding apply_receipt
after_lookup c st (some (r, mined)) = apply_receipt c c.chain_after st r mined
after_lookup c st none = done (
    defer (record st {
      job = record st.job {
        status = JobStatus.sent;
        sent_at = or_now st.job.sent_at c.now;
        nonce_consumed_at = or_now st.job.nonce_consumed_at c.now;
        last_error = Note.nonce_consumed_awaiting;
      };
    }))

-- `_nonce_consumed`
unfoldable pub nonce_consumed : Context → State → List ℕ → Run
unfolding after_lookup
nonce_consumed c st hashes = after_lookup c st (found_or_none (find_receipt c.chain_after hashes))

-- A rebroadcast that keeps failing: never terminal while the first broadcast may mine.
unfoldable pub rebroadcast_failed : Context → State → State
rebroadcast_failed c st =
    let s = settings_of c in
    let attempts = st.job.attempts + 1 in
    let j : RelayJob = record st.job {
      attempts = attempts;
      next_attempt_at = c.now + s.relayer_retry_backoff_seconds * max 1 attempts;
    } in
    defer (record st {
      job =
          if leb s.relayer_max_attempts attempts
          then record j {
            status = JobStatus.sent;
            sent_at = or_now st.job.sent_at c.now;
            last_error = Note.stuck_rebroadcast;
          }
          else record j { last_error = Note.rebroadcast_failed };
    })

abbrev pub taken_by_pool : Context → State → State
taken_by_pool c st = record st {
  job = record st.job {
    status = JobStatus.sent;
    sent_at = or_now st.job.sent_at c.now;
    next_attempt_at = 0;
    last_error = Note.empty;
  };
}

-- What the node's answer makes of a rebroadcast.
unfoldable pub after_rebroadcast : Context → State → List ℕ → Sent → Run
unfolding nonce_consumed resync_nonce rebroadcast_failed
after_rebroadcast c st hashes accepted = done (taken_by_pool c st)
after_rebroadcast c st hashes known = done (taken_by_pool c st)
after_rebroadcast c st hashes underpriced = done (taken_by_pool c st)
after_rebroadcast c st hashes nonce_low = nonce_consumed c st hashes >>= resync_nonce c
after_rebroadcast c st hashes insufficient_funds = done (
    defer (record st {
      job = record st.job {
        last_error = Note.balance_low;
        next_attempt_at = c.now + (settings_of c).relayer_retry_backoff_seconds;
      };
    }))
after_rebroadcast c st hashes revert = done (rebroadcast_failed c st)
after_rebroadcast c st hashes transient = done (rebroadcast_failed c st)

-- `_rebroadcast`
unfoldable pub rebroadcast : Context → State → List ℕ → Run
unfolding after_rebroadcast
rebroadcast c st hashes =
    if ltb c.now st.job.next_attempt_at
    then done st
    else after_rebroadcast c (with_broadcast st.job.raw_tx st) hashes (broadcast c st.job.raw_tx)

-- `_back_to_pending`
abbrev pub back_to_pending : Context → Note → ℕ → RelayJob → RelayJob
back_to_pending c reason delay j = record j {
  status = JobStatus.pending;
  nonce = none;
  raw_tx = none;
  nonce_consumed_at = none;
  next_attempt_at = c.now + delay;
  last_error = reason;
}

-- The verdict on a job whose nonce another transaction has used.
unfoldable pub settle_verdict : Context → State → Answer Verdict → Run
unfolding resync_nonce
settle_verdict c st rpc_error = done (defer (note Note.fill_check st))
settle_verdict c st (ok (landed h bn)) = done (confirm c st h bn)
settle_verdict c st (ok may_be) = done (
    defer (record st {
      job = record st.job {
        nonce_consumed_at = some c.now;
        last_error = Note.stuck_may_have_landed;
      };
    }))
settle_verdict c st (ok absent) =
    resync_nonce c (record st { job = back_to_pending c Note.consumed_by_other 0 st.job })
    >>= λ st'. done (defer st')

-- `job.nonce is None or latest <= job.nonce`
abbrev pub not_past : Option ℕ → ℕ → Bool
not_past none latest = true
not_past (some n) latest = leb latest n

-- What the account's latest nonce says of the job's.
unfoldable pub consumed_at : Context → State → Answer ℕ → Run
unfolding settle_verdict
consumed_at c st rpc_error = done (defer (note Note.nonce_check st))
consumed_at c st (ok latest) =
    if not_past st.job.nonce latest
    then done (record st {
      job = record st.job {
        nonce_consumed_at = none;
        sent_at = some c.now;
        last_error = Note.empty;
      };
    })
    else settle_verdict c st (fill_verdict c st)

abbrev pub sender_of : Context → RelayJob → ℕ
sender_of c j = if j.sender == 0 then c.sender else j.sender

abbrev pub lag_end : Context → RelayJob → ℕ
lag_end c j = or_zero j.nonce_consumed_at + (settings_of c).relayer_resubmit_after_seconds

-- `_settle_consumed`
unfoldable pub settle_consumed : Context → State → Run
unfolding consumed_at
settle_consumed c st =
    if ltb c.now (lag_end c st.job)
    then done st
    else consumed_at c st (c.chain.latest_nonce (sender_of c st.job))
