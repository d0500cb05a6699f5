-- ===== src/Relayer/Worker/Moves.antt =====
-- What must be known for the status in which a pass of `_reconcile` (backend/app/relayer/worker.py)
-- leaves a job.
pub mod Receipts
pub mod Sends
pub mod Pass
use over_under.Prelude.{
  ℕ, ◌+◌, ◌≤◌, ◌<◌, ◌≡◌, ◌≢◌, ◌⊎◌, inl, inr, refl, Bool, true, false, not, ◌&&◌, ◌||◌, Option, none,
  some, List, [], ◌∷◌, ◌++◌, arith, any, Option-cases, Bool-cases, max, ltb, leb, ◌==◌,
  if◌then◌else◌, sym, ◌∙◌, ap, ==-refl,
}
use over_under.Prelude.Table.{find, modify, find-modify_self, modify_missing}
use over_under.Relayer.Gas.{FeeQuote, bump_fees}
use over_under.Relayer.Worker.Retire.{by_hash}
use over_under.Settings.{Settings}
use over_under.Db.{Db, Order, RelayJob, JobStatus, Note, job_key}
use over_under.Relayer.Queue.{in_flight, rollback_job, undo_fill, close_job, is_terminal}
use over_under.Relayer.Queue.Rollback.{rollback_job_hit, closed_row}
use over_under.Relayer.Worker.{
  Sent, accepted, nonce_low, known, underpriced, insufficient_funds, revert, transient, Block,
  Answer, ok, rpc_error, Receipt, Chain, Log, Tx, Context, State, Run, done, raised, ◌>>=◌,
  settings_of, put, defer, or_zero, hashes_of, find_receipt, has_fill_log, is_fill_log, confirm,
  Verdict, landed, may_be, absent, fill_verdict,
}
use over_under.Relayer.Worker.Settle.{
  apply_receipt, promoted, settle_success, settle_failure, after_rollback, record_mined,
  resync_nonce, nonce_consumed, after_lookup, rebroadcast, after_rebroadcast, rebroadcast_failed,
  settle_consumed, settle_verdict, not_past, consumed_at, sender_of, lag_end, back_to_pending,
  found_or_none, broadcast, with_broadcast,
}
use over_under.Relayer.Worker.Reconcile.{
  after_bump, written_ahead, send_bump, bump_quoted, bump_at, bump_parts, resigned, gas_of,
  after_keep_alive, noted_stuck, is_some, is_sending, stored_quote, store_quote, bump, keep_alive,
  waiting, reconcile, after_receipts, counted,
}

-- The job's match again, on the job's own nonce and gas, to the Exchange, from the rows of its orders.
pub record Rebuilt (c : Context) (st : State) (tx : Tx) : Type 0 where
  pub on_chain : tx.chain_id ≡ c.chain_id
  pub own_nonce : st.job.nonce ≡ some tx.nonce
  pub to_exchange : tx.to ≡ c.exchange
  pub own_gas : st.job.gas_limit ≡ some tx.gas
  pub own_taker : by_hash st.job.taker_hash st.db.orders ≡ some tx.taker
  pub own_maker : by_hash st.job.maker_hash st.db.orders ≡ some tx.maker
  pub own_fill : tx.fill ≡ st.job.fill_amount

-- A bump of the job is due: it is sent, its nonce is not known to be used, attempts are left, and the
-- time to resubmit has passed.
pub record Due (c : Context) (j : RelayJob) : Type 0 where
  pub is_sent : j.status ≡ JobStatus.sent
  pub unused : j.nonce_consumed_at ≡ none
  pub attempts_left : j.attempts < (settings_of c).relayer_max_attempts
  pub waited : or_zero j.sent_at + (settings_of c).relayer_resubmit_after_seconds ≤ c.now

-- The replacement that this pass signs: the rebuilt match, at the bumped fees of the stored quote.
pub record Replacement (c : Context) (st : State) (tx : Tx) : Type 0 where
  pub rebuilt : Rebuilt c st tx
  pub due : Due c st.job
  pub block : Block
  pub latest : c.chain.latest_block ≡ ok block
  pub outbids : bump_fees (stored_quote st.job) (settings_of c) block.base_fee ≡ some tx.quote

-- A transaction that is the job's: one of its hashes, or the replacement that is signed for it in this
-- pass, where none of its hashes has a receipt.
pub data Own (c : Context) (st : State) (h : ℕ) : Type 0 where
  on_record : any (λ k. k == h) (hashes_of st.job) ≡ true → Own c st h
  just_signed :
      (tx : Tx)
      → find_receipt c.chain (hashes_of st.job) ≡ ok none
      → Replacement c st tx
      → (c.sign tx).1 ≡ h
      → Own c st h

-- A success whose logs hold the job's fill, or that the node answers without logs; or else a receipt
-- that reverted, or whose logs do not hold the fill.
abbrev pub Judged : Context → RelayJob → Receipt → Bool → Type 0
Judged c j r true =
    (r.status ≡ 1)
    × ((r.logs ≡ none)
        ⊎ ((logs : List Log) × (r.logs ≡ some logs) × (any (is_fill_log c j) logs ≡ true)))
Judged c j r false =
    (r.status ≢ 1)
    ⊎ ((logs : List Log) × (r.logs ≡ some logs) × (any (is_fill_log c j) logs ≡ false))

-- A receipt of one of the job's transactions, and how it is judged.
pub data Receipted (c : Context) (st : State) (good : Bool) : Type 0 where
  receipted :
      (chain : Chain) (r : Receipt) (h : ℕ)
      → (chain ≡ c.chain) ⊎ (chain ≡ c.chain_after)
      → chain.get_receipt h ≡ ok (some r)
      → Own c st h
      → Judged c st.job r good
      → Receipted c st good

-- The lag window of the job has passed, the account's nonce is past the job's by now, and the fill
-- is neither in a log of the job's transactions nor in the fills of both orders on chain.
pub data Displaced (c : Context) (st : State) : Type 0 where
  displaced_by :
      (latest : ℕ)
      → lag_end c st.job ≤ c.now
      → c.chain.latest_nonce (sender_of c st.job) ≡ ok latest
      → not_past st.job.nonce latest ≡ false
      → fill_verdict c st ≡ ok absent
      → Displaced c st

-- What must be known when the job is left in a status.
pub data Because (c : Context) (st : State) : JobStatus → Type 0 where
  still_sending : Because c st JobStatus.sending
  still_sent : Because c st JobStatus.sent
  mined_good : Receipted c st true → Because c st JobStatus.confirmed
  on_log : (h bn : ℕ) → fill_verdict c st ≡ ok (landed h bn) → Because c st JobStatus.confirmed
  mined_bad : Receipted c st false → Because c st JobStatus.failed
  displaced : Displaced c st → Because c st JobStatus.pending

-- A step that returns has left the job in a status that it may have; a step that raises is rolled
-- back.
unfoldable pub Post : (JobStatus → Type 0) → Run → Type 0
Post P (done st') = P st'.job.status
Post P (raised st') = Unit

pub in_flight-Because :
    (c : Context) (st : State) (s : JobStatus) → in_flight s ≡ true → Because c st s
in_flight-Because c st JobStatus.sending h = still_sending
in_flight-Because c st JobStatus.sent h = still_sent
in_flight-Because c st JobStatus.pending h = absurd (ground arith)
in_flight-Because c st JobStatus.confirmed h = absurd (ground arith)
in_flight-Because c st JobStatus.failed h = absurd (ground arith)
in_flight-Because c st JobStatus.cancelled h = absurd (ground arith)

pub in_flight_live : (s : JobStatus) → in_flight s ≡ true → is_terminal s ≡ false
in_flight_live s h = ground arith

pub Answer-cases : {A : Type 0} (a : Answer A) → (a ≡ rpc_error) ⊎ ((x : A) × (a ≡ ok x))
Answer-cases rpc_error = inl refl
Answer-cases (ok x) = inr (x, refl)

-- The step keeps the job in flight, or raises.
abbrev keeps : Run → Bool
keeps (done st') = in_flight st'.job.status
keeps (raised st') = true

keeps-Post : (c : Context) (st : State) (m : Run) → keeps m ≡ true → Post (Because c st) m
unfolding Post
keeps-Post c st (done st') h = in_flight-Because c st st'.job.status h
keeps-Post c st (raised st') h = tt
