-- ===== src/Relayer/Worker/Send.antt =====
-- `_send` (backend/app/relayer/worker.py): a pending job is checked, signed, put on record and
-- broadcast. The rollbacks' and the nonce manager's parts are those of the queue and of Nonce.
pub mod Prepare
pub mod Silent
pub mod Ahead
use over_under.Prelude.{
  ℕ, zero, suc, ◌+◌, ◌*◌, max, Bool, true, false, not, ◌&&◌, ◌||◌, Option, none, some, List, [],
  ◌∷◌, ◌++◌, ltb, leb, ◌==◌, if◌then◌else◌, any, keep, map,
}
use over_under.Prelude.Table.{find, modify}
use over_under.Settings.{Settings}
use over_under.Market.{HaltReason, halts_at, trading_halt_reason, market_key}
use over_under.Db.{Db, Order, RelayJob, JobStatus, Note, job_key}
use over_under.Relayer.Gas.{FeeQuote, quote_fees, gas_limit}
use over_under.Relayer.Nonce.{Cache, reserve, release, nonce_floor}
use over_under.Relayer.Preflight.{
  Committed, nothing_committed, add_match, Ledger, Reason, is_busy, preflight_match,
}
use over_under.Relayer.Queue.{in_flight, same_status, rollback_job}
use over_under.Relayer.Worker.{
  Answer, ok, rpc_error, Block, Sent, accepted, nonce_low, known, underpriced, insufficient_funds,
  revert, transient, Chain, Tx, Context, Stats, State, Run, done, raised, ◌>>=◌, settings_of, put,
  defer, note, hashes_of, confirm, Verdict, landed, may_be, absent, fill_verdict,
}
use over_under.Relayer.Worker.Retire.{by_hash, retire_failed_side}
use over_under.Relayer.Worker.Settle.{after_rollback, resync_nonce, nonce_consumed, back_to_pending}
use over_under.Relayer.Worker.Reconcile.{store_quote, Ticked, settled}

pub data Estimate : Type 0 where
  estimated : ℕ → Estimate
  reverts fails : Estimate

-- The node's answers that only a send asks for, and the nonces that the account's emissions
-- distributions hold. `tip` is 0 where the node gave none.
pub record Offer : Type 0 where
  pub estimate : Estimate
  pub tip : ℕ
  pub gas_price : Answer ℕ
  pub balance : Answer ℕ
  pub pending : Answer ℕ
  pub distributions : List ℕ

-- `job.next_attempt_at = now + delay`
abbrev pub postpone : Context → ℕ → State → State
postpone c delay st = record st { job = record st.job { next_attempt_at = c.now + delay } }

abbrev pub count_failed : Bool × State → State
count_failed (true, st) = record st { stats = record st.stats { failed = st.stats.failed + 1 } }
count_failed (false, st) = st

abbrev pub count_cancelled : Bool × State → State
count_cancelled (true, st) = record st {
  stats = record st.stats { cancelled = st.stats.cancelled + 1 };
}
count_cancelled (false, st) = st

-- `rollback_job` on the step's job.
unfoldable pub roll_back : State → JobStatus → Note → Bool × State
unfolding after_rollback
roll_back st status reason =
    after_rollback st (rollback_job (put st) st.job.id st.job.status status reason) reason

-- `_retry_or_fail`
unfoldable pub retry_or_fail : Context → State → Run
unfolding roll_back
retry_or_fail c st =
    let attempts = st.job.attempts + 1 in
    let st' : State = record st { job = record st.job { attempts = attempts } } in
    if leb (settings_of c).relayer_max_attempts attempts
    then done (count_failed (roll_back st' JobStatus.failed Note.gave_up))
    else done (
        defer (
          postpone c ((settings_of c).relayer_retry_backoff_seconds * attempts)
            (note Note.transient st')))

-- The loop of `_committed`, over the other jobs in flight.
unfoldable pub add_jobs : List Order → List RelayJob → Committed
add_jobs orders [] = nothing_committed
add_jobs orders (j ∷ js) =
    let rest = add_jobs orders js in
    elim (by_hash j.taker_hash orders) [
      | none ↦ rest
      | some t ↦ elim (by_hash j.maker_hash orders) [
        | none ↦ rest
        | some m ↦ add_match rest t m j.taker_hash j.maker_hash j.fill_amount
      ]
    ]

-- `_committed`
unfoldable pub committed : Db → RelayJob → Committed
unfolding add_jobs
committed db job =
    add_jobs db.orders (keep (λ j. in_flight j.status && not (j.id == job.id)) db.jobs)

abbrev at_or_after : Option ℕ → ℕ → Bool
at_or_after none t = false
at_or_after (some at) t = leb at t

abbrev is_closed : Option HaltReason → Bool
is_closed (some HaltReason.closed) = true
is_closed _ = false

-- `_matched_after_halt`
unfoldable pub matched_after_halt : Context → Db → RelayJob → Bool
matched_after_halt c db job =
    is_closed (trading_halt_reason db.markets db.listings job.condition_id (settings_of c) c.now)
    && elim (find market_key job.condition_id db.markets) [
      | none ↦ false
      | some m ↦ at_or_after (halts_at m (settings_of c)) job.matched_at
    ]

abbrev pub sent_off : Context → State → State
sent_off c st = record st {
  job = record st.job {
    status = JobStatus.sent;
    sent_at = some c.now;
    attempts = st.job.attempts + 1;
    last_error = Note.empty;
  };
  stats = record st.stats { sent = st.stats.sent + 1 };
}

-- The node may have taken it: the record written ahead stays, to be broadcast again.
abbrev send_failed : Context → State → State
send_failed c st = defer (
    postpone c (settings_of c).relayer_retry_backoff_seconds (
      note Note.broadcast_failed
        (record st { job = record st.job { attempts = st.job.attempts + 1 } })))

-- What the node's answer makes of a first broadcast, on the reserved nonce.
unfoldable pub after_send : Context → State → ℕ → Sent → Run
unfolding nonce_consumed resync_nonce
after_send c st nonce accepted = done (sent_off c st)
after_send c st nonce known = done (sent_off c st)
after_send c st nonce nonce_low =
    resync_nonce c st >>= λ st'. nonce_consumed c st' (hashes_of st'.job)
after_send c st nonce underpriced = resync_nonce c st >>= λ st'.
    done (defer (record st' { job = back_to_pending c Note.resynced_nonce 0 st'.job }))
after_send c st nonce insufficient_funds = done (
    defer (record st {
      cache = release st.cache nonce;
      job = back_to_pending c Note.balance_low (settings_of c).relayer_retry_backoff_seconds st.job;
    }))
after_send c st nonce revert = done (send_failed c st)
after_send c st nonce transient = done (send_failed c st)

-- `if job.first_sent_block is None`
abbrev first_block : Option ℕ → ℕ → Option ℕ
first_block none now = some now
first_block (some b) now = some b

-- The job with its transaction, as it is put on record before the broadcast.
abbrev pub signed_job : Context → RelayJob → Tx → ℕ → ℕ → Block → RelayJob
signed_job c j tx raw h block = record (store_quote j tx.quote) {
  status = JobStatus.sending;
  sender = c.sender;
  nonce = some tx.nonce;
  raw_tx = some raw;
  tx_hash = some h;
  tx_hashes = j.tx_hashes ++ h ∷ [];
  gas_limit = some tx.gas;
  nonce_consumed_at = none;
  next_attempt_at = 0;
  first_sent_block = first_block j.first_sent_block block.number;
}

-- Signed, committed, broadcast.
unfoldable pub sign_and_send : Context → State → Tx → Block → Run
unfolding after_send store_quote
sign_and_send c st tx block =
    let signed = c.sign tx in
    let st' : State = record st { job = signed_job c st.job tx signed.0 signed.1 block } in
    after_send c
      (record st' { db = put st'; committed = put st'; broadcast = signed.0 ∷ st'.broadcast })
      tx.nonce (c.chain.send_raw signed.0)

-- The nonces that jobs of the account hold in flight.
unfoldable pub job_nonces : ℕ → List RelayJob → List ℕ
job_nonces sender [] = []
job_nonces sender (j ∷ js) =
    let rest = job_nonces sender js in
    elim j.nonce [
      | none ↦ rest
      | some n ↦ if in_flight j.status && j.sender == sender then n ∷ rest else rest
    ]

-- `nm.reserve(floor)`: a cache that is there needs no answer; a failing read raises.
unfoldable pub reserve_or : Cache → Answer ℕ → Option ℕ → Answer (ℕ × Cache)
unfolding reserve
reserve_or (some next) pending floor = ok (reserve (some next) next floor)
reserve_or none rpc_error floor = rpc_error
reserve_or none (ok pending) floor = ok (reserve none pending floor)

unfoldable pub on_nonce : Context → State → Tx → Block → Answer (ℕ × Cache) → Run
unfolding sign_and_send
on_nonce c st tx block rpc_error = raised st
on_nonce c st tx block (ok reserved) =
    sign_and_send c (record st { cache = reserved.1 }) (record tx { nonce = reserved.0 }) block

-- The conditional claim of the row.
abbrev pub is_claimable : Option RelayJob → Bool
is_claimable none = false
is_claimable (some row) = same_status row.status JobStatus.pending

unfoldable pub claim : Context → Offer → State → Tx → Block → Run
unfolding on_nonce reserve_or nonce_floor job_nonces
claim c o st tx block =
    if is_claimable (find job_key st.job.id st.db.jobs)
    then on_nonce c st tx block (
        reserve_or st.cache o.pending
          (nonce_floor (job_nonces c.sender st.db.jobs ++ o.distributions)))
    else done st
