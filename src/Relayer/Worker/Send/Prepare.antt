-- ===== src/Relayer/Worker/Send/Prepare.antt =====
-- The steps of `_send` (backend/app/relayer/worker.py) in the order of the source, the last first, and
-- the second loop of `tick`.
use over_under.Prelude.{
  ℕ, zero, suc, ◌*◌, max, Bool, true, false, not, ◌&&◌, ◌||◌, Option, none, some, List, [], ◌∷◌,
  ltb, leb, if◌then◌else◌, keep,
}
use over_under.Prelude.Table.{find}
use over_under.Db.{Order, RelayJob, JobStatus, Note, job_key}
use over_under.Relayer.Gas.{FeeQuote, quote_fees, gas_limit}
use over_under.Relayer.Preflight.{Ledger, Reason, is_busy, preflight_match}
use over_under.Relayer.Queue.{same_status}
use over_under.Relayer.Worker.{
  Answer, ok, rpc_error, Block, Tx, Context, State, Run, done, settings_of, put, defer, note,
  confirm, Verdict, landed, may_be, absent, fill_verdict,
}
use over_under.Relayer.Worker.Retire.{by_hash, retire_failed_side}
use over_under.Relayer.Worker.Reconcile.{Ticked, settled}
use over_under.Relayer.Worker.Send.{
  Estimate, estimated, reverts, Offer, postpone, count_failed, count_cancelled, roll_back,
  retry_or_fail, committed, matched_after_halt, claim, fails,
}

unfoldable pub with_balance : Context → Offer → State → Tx → Block → Answer ℕ → Run
unfolding claim retry_or_fail
with_balance c o st tx block rpc_error = retry_or_fail c st
with_balance c o st tx block (ok balance) =
    if ltb balance (tx.gas * tx.quote.max_fee)
    then done (
        defer (postpone c (settings_of c).relayer_retry_backoff_seconds (note Note.balance_low st)))
    else claim c o st tx block

-- `_tx`, before a nonce is reserved.
abbrev pub unsigned_tx : Context → RelayJob → Order → Order → ℕ → FeeQuote → Tx
unsigned_tx c j taker maker gas q = record {
  chain_id = c.chain_id;
  nonce = 0;
  to = c.exchange;
  gas = gas;
  quote = q;
  taker = taker;
  maker = maker;
  fill = j.fill_amount;
}

unfoldable pub with_quote :
    Context → Offer → State → Order → Order → ℕ → Block → Option FeeQuote → Run
unfolding with_balance
with_quote c o st taker maker gas block none =
    done (
      defer (postpone c (settings_of c).relayer_retry_backoff_seconds (note Note.fee_above_cap st)))
with_quote c o st taker maker gas block (some q) =
    with_balance c o st (unsigned_tx c st.job taker maker gas q) block o.balance

-- The gas price is read only where blocks have no base fee.
unfoldable pub with_price :
    Context → Offer → State → Order → Order → ℕ → Block → Option ℕ → Answer ℕ → Run
unfolding with_quote retry_or_fail
with_price c o st taker maker gas block (some base) price =
    with_quote c o st taker maker gas block (quote_fees (some base) o.tip none (settings_of c))
with_price c o st taker maker gas block none rpc_error = retry_or_fail c st
with_price c o st taker maker gas block none (ok price) =
    with_quote c o st taker maker gas block (quote_fees none o.tip (some price) (settings_of c))

unfoldable pub with_gas : Context → Offer → State → Order → Order → Block → Option ℕ → Run
unfolding with_price roll_back
with_gas c o st taker maker block none =
    done (count_failed (roll_back st JobStatus.failed Note.gas_above_cap))
with_gas c o st taker maker block (some gas) =
    with_price c o st taker maker gas block block.base_fee o.gas_price

unfoldable pub with_estimate : Context → Offer → State → Order → Order → Block → Estimate → Run
unfolding with_gas roll_back retry_or_fail
with_estimate c o st taker maker block reverts =
    done (count_failed (roll_back st JobStatus.failed Note.estimate_reverted))
with_estimate c o st taker maker block fails = retry_or_fail c st
with_estimate c o st taker maker block (estimated est) =
    with_gas c o st taker maker block (gas_limit est (settings_of c))

-- A job that failed its preflight: the side at fault is retired, if the job was rolled back.
unfoldable pub retire_side : Context → Order → Order → List Reason → Bool × State → Run
retire_side c taker maker hard (false, st) = done st
retire_side c taker maker hard (true, st) =
    let st' = count_failed (true, st) in
    done (record st' { db = retire_failed_side c c.chain (put st') taker maker hard })

-- The reasons: hard ones fail the job, busy ones put it off.
unfoldable pub with_reasons :
    Context → Offer → State → Order → Order → Block → List Reason → List Reason → Run
unfolding with_estimate retire_side roll_back
with_reasons c o st taker maker block (r ∷ rs) reasons =
    retire_side c taker maker (r ∷ rs) (roll_back st JobStatus.failed Note.preflight_failed)
with_reasons c o st taker maker block [] (r ∷ rs) =
    done (
      defer
        (postpone c (max 1 (settings_of c).relayer_poll_seconds) (note Note.waits_in_flight st)))
with_reasons c o st taker maker block [] [] = with_estimate c o st taker maker block o.estimate

unfoldable pub with_ledger :
    Context → Offer → State → Order → Order → Answer Block → Option Ledger → Run
unfolding with_reasons committed retry_or_fail
with_ledger c o st taker maker rpc_error l = retry_or_fail c st
with_ledger c o st taker maker (ok block) none = retry_or_fail c st
with_ledger c o st taker maker (ok block) (some l) =
    let reasons =
      preflight_match l taker maker st.job.taker_hash st.job.maker_hash st.job.fill_amount
        block.timestamp (settings_of c) (some (committed st.db st.job)) in
    with_reasons c o st taker maker block (keep (λ r. not (is_busy r)) reasons) reasons

unfoldable pub with_orders : Context → Offer → State → Option Order → Option Order → Run
unfolding with_ledger matched_after_halt roll_back
with_orders c o st (some taker) (some maker) =
    if taker.cancelled || maker.cancelled
    then done (count_cancelled (roll_back st JobStatus.cancelled Note.missing_or_cancelled))
    else if matched_after_halt c st.db st.job
    then done (count_failed (roll_back st JobStatus.failed Note.market_closed))
    else with_ledger c o st taker maker c.chain.latest_block c.chain.ledger
with_orders c o st none maker =
    done (count_cancelled (roll_back st JobStatus.cancelled Note.missing_or_cancelled))
with_orders c o st (some taker) none =
    done (count_cancelled (roll_back st JobStatus.cancelled Note.missing_or_cancelled))

unfoldable pub prepare : Context → Offer → State → Run
unfolding with_orders
prepare c o st =
    with_orders c o st (by_hash st.job.taker_hash st.db.orders)
      (by_hash st.job.maker_hash st.db.orders)

-- A job that signed before: the fill may be on chain.
unfoldable pub after_check : Context → Offer → State → Answer Verdict → Run
unfolding prepare
after_check c o st rpc_error =
    done
      (defer (postpone c (settings_of c).relayer_retry_backoff_seconds (note Note.fill_check st)))
after_check c o st (ok (landed h bn)) = done (confirm c st h bn)
after_check c o st (ok may_be) = done (
    defer (
      postpone c (settings_of c).relayer_resubmit_after_seconds (note Note.stuck_not_resending st)))
after_check c o st (ok absent) = prepare c o st

abbrev pub signed_before : List ℕ → Bool
signed_before [] = false
signed_before (h ∷ hs) = true

-- `_send`
unfoldable pub send : Context → Offer → State → Run
unfolding after_check prepare
send c o st =
    if signed_before st.job.tx_hashes
    then after_check c o st (fill_verdict c st)
    else prepare c o st

-- `_guard` with `_send`, on the job's row.
send_row : Context → Offer → Ticked → Option RelayJob → Ticked
unfolding send
send_row c o t none = t
send_row c o t (some job) =
    if same_status job.status JobStatus.pending
    then settled (
        send c o (record {
          db = t.db;
          job = job;
          cache = t.cache;
          stats = t.stats;
          committed = t.db;
          broadcast = [];
        }))
    else t

-- The second loop of `tick`, over the ids of pending jobs, each with the answers of its time.
pub tick_pending : List (ℕ × Context × Offer) → Ticked → Ticked
unfolding send_row
tick_pending [] t = t
tick_pending ((id, c, o) ∷ rest) t = tick_pending rest (send_row c o t (find job_key id t.db.jobs))

-- The ids that the second loop reads: due pending jobs, the oldest first, at most a batch.
pub pending_ids : ℕ → ℕ → List RelayJob → List ℕ
pending_ids zero now jobs = []
pending_ids (suc n) now [] = []
pending_ids (suc n) now (j ∷ js) =
    let here = pending_ids n now js in
    let later = pending_ids (suc n) now js in
    if same_status j.status JobStatus.pending && leb j.next_attempt_at now
    then j.id ∷ here
    else later
