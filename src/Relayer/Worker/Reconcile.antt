-- ===== src/Relayer/Worker/Reconcile.antt =====
-- `_bump`, `_reconcile` and `_guard` (backend/app/relayer/worker.py): one pass over a job in flight.
use over_under.Prelude.{
  ℕ, ◌+◌, Bool, true, false, ◌&&◌, Option, none, some, List, [], ◌∷◌, ◌++◌, ltb, leb, ◌==◌,
  if◌then◌else◌,
}
use over_under.Prelude.Table.{find}
use over_under.Db.{Db, Order, RelayJob, JobStatus, Note, is_stuck, job_key}
use over_under.Relayer.Gas.{FeeQuote, bump_fees}
use over_under.Relayer.Nonce.{Cache}
use over_under.Relayer.Queue.{in_flight}
use over_under.Relayer.Worker.{
  Answer, ok, rpc_error, Receipt, Block, Sent, accepted, nonce_low, known, underpriced,
  insufficient_funds, revert, transient, Tx, Context, Stats, State, Run, done, raised, ◌>>=◌,
  settings_of, put, defer, note, or_zero, hashes_of, find_receipt,
}
use over_under.Relayer.Worker.Retire.{by_hash}
use over_under.Relayer.Worker.Settle.{
  apply_receipt, resync_nonce, broadcast, with_broadcast, nonce_consumed, rebroadcast,
  settle_consumed,
}

-- `_stored_quote`
unfoldable pub stored_quote : RelayJob → FeeQuote
stored_quote j = elim j.max_priority_fee_per_gas [
  | none ↦ record {
    max_fee = or_zero j.max_fee_per_gas;
    tip = or_zero j.max_fee_per_gas;
    legacy_gas_price = some (or_zero j.max_fee_per_gas);
  }
  | some tip ↦ record { max_fee = or_zero j.max_fee_per_gas; tip = tip; legacy_gas_price = none }
]

-- `_store_quote`
unfoldable pub store_quote : RelayJob → FeeQuote → RelayJob
store_quote j q = record j {
  max_fee_per_gas = some q.max_fee;
  max_priority_fee_per_gas = elim q.legacy_gas_price [ some _ ↦ none | none ↦ some q.tip ];
}

-- The job with a replacement signed on its own nonce.
abbrev pub resigned : Context → RelayJob → ℕ → ℕ → FeeQuote → RelayJob
resigned c j raw h q = record (store_quote j q) {
  raw_tx = some raw;
  tx_hash = some h;
  tx_hashes = j.tx_hashes ++ h ∷ [];
  attempts = j.attempts + 1;
  sent_at = some c.now;
}

-- Behind the write-ahead commit: the replacement is on its way.
abbrev pub written_ahead : State → ℕ → State
written_ahead st raw = record st {
  db = put st;
  committed = put st;
  broadcast = raw ∷ st.broadcast;
  stats = record st.stats { bumped = st.stats.bumped + 1 };
}

-- What the node's answer makes of a bump.
unfoldable pub after_bump : Context → State → List ℕ → Sent → Run
after_bump c st hashes accepted = done (note Note.empty st)
after_bump c st hashes known = done (note Note.empty st)
after_bump c st hashes underpriced = done (note Note.bump_underpriced st)
after_bump c st hashes nonce_low = nonce_consumed c st hashes >>= resync_nonce c
after_bump c st hashes insufficient_funds = done (note Note.bump_broadcast st)
after_bump c st hashes revert = done (note Note.bump_broadcast st)
after_bump c st hashes transient = done (note Note.bump_broadcast st)

unfoldable pub send_bump : Context → State → ℕ → ℕ → List ℕ → Run
unfolding after_bump
send_bump c st raw h prior =
    after_bump c (written_ahead st raw) (prior ++ h ∷ []) (c.chain.send_raw raw)

-- The replacement is signed, put on the job, and sent.
unfoldable pub bump_quoted : Context → State → Tx → List ℕ → Option FeeQuote → Run
unfolding send_bump store_quote
bump_quoted c st tx prior none = done (note Note.stuck_fee_cap st)
bump_quoted c st tx prior (some q) =
    let signed = c.sign (record tx { quote = q }) in
    send_bump c (record st { job = resigned c st.job signed.0 signed.1 q }) signed.0 signed.1 prior

unfoldable pub bump_at : Context → State → Tx → List ℕ → Answer Block → Run
unfolding bump_quoted stored_quote
bump_at c st tx prior rpc_error = done (defer (note Note.bump_rpc st))
bump_at c st tx prior (ok block) =
    bump_quoted c st tx prior (bump_fees tx.quote (settings_of c) block.base_fee)

-- `job.nonce is None or not job.gas_limit`
abbrev pub gas_of : Option ℕ → Option ℕ
gas_of none = none
gas_of (some g) = if g == 0 then none else some g

unfoldable pub bump_parts :
    Context → State → List ℕ → Option Order → Option Order → Option ℕ → Option ℕ → Run
unfolding bump_at stored_quote
bump_parts c st prior (some taker) (some maker) (some nonce) (some gas) =
    bump_at c st
      (record {
        chain_id = c.chain_id;
        nonce = nonce;
        to = c.exchange;
        gas = gas;
        quote = stored_quote st.job;
        taker = taker;
        maker = maker;
        fill = st.job.fill_amount;
      })
      prior c.chain.latest_block
bump_parts c st prior none maker used gas = done (note Note.stuck_cannot_rebuild st)
bump_parts c st prior (some taker) none used gas = done (note Note.stuck_cannot_rebuild st)
bump_parts c st prior (some taker) (some maker) none gas = done (note Note.stuck_cannot_rebuild st)
bump_parts c st prior (some taker) (some maker) (some nonce) none =
    done (note Note.stuck_cannot_rebuild st)

-- `_bump`
unfoldable pub bump : Context → State → List ℕ → Run
unfolding bump_parts
bump c st prior =
    bump_parts c st prior (by_hash st.job.taker_hash st.db.orders)
      (by_hash st.job.maker_hash st.db.orders) st.job.nonce (gas_of st.job.gas_limit)

abbrev pub is_some {ℓ} : {A : Type ℓ} → Option A → Bool
is_some none = false
is_some (some a) = true

-- What the node's answer makes of a transaction that is kept alive.
unfoldable pub after_keep_alive : Context → State → List ℕ → Sent → Run
after_keep_alive c st hashes nonce_low = nonce_consumed c st hashes >>= resync_nonce c
after_keep_alive c st hashes accepted = done st
after_keep_alive c st hashes known = done st
after_keep_alive c st hashes underpriced = done st
after_keep_alive c st hashes insufficient_funds = done st
after_keep_alive c st hashes revert = done st
after_keep_alive c st hashes transient = done st

abbrev pub noted_stuck : State → State
noted_stuck st =
    note (if is_stuck st.job.last_error then st.job.last_error else Note.stuck_max_attempts) st

-- Out of attempts: no more bumps, but the signed transaction is kept alive, now and then.
unfoldable pub keep_alive : Context → State → List ℕ → Run
unfolding after_keep_alive
keep_alive c st hashes =
    let after = (settings_of c).relayer_resubmit_after_seconds in
    let noted = noted_stuck st in
    if is_some st.job.raw_tx
      && (leb (or_zero st.job.sent_at + after) c.now && leb st.job.next_attempt_at c.now)
    then after_keep_alive c
        (with_broadcast st.job.raw_tx
          (record noted { job = record noted.job { next_attempt_at = c.now + after } }))
        hashes (broadcast c st.job.raw_tx)
    else done noted

abbrev pub is_sending : JobStatus → Bool
is_sending JobStatus.sending = true
is_sending _ = false

-- No receipt: `sending`, a consumed nonce, out of attempts, young, or due for a bump.
unfoldable pub waiting : Context → State → List ℕ → Run
unfolding bump keep_alive
waiting c st hashes =
    if is_sending st.job.status
    then rebroadcast c st hashes
    else if is_some st.job.nonce_consumed_at
    then settle_consumed c st
    else if leb (settings_of c).relayer_max_attempts st.job.attempts
    then keep_alive c st hashes
    else if ltb c.now (or_zero st.job.sent_at + (settings_of c).relayer_resubmit_after_seconds)
    then done st
    else bump c st hashes

-- What the lookup of the receipts makes of the job; the first state has not been counted.
unfoldable pub after_receipts :
    Context → State → State → List ℕ → Answer (Option (Receipt × ℕ)) → Run
unfolding waiting
after_receipts c st counted hashes rpc_error = done (defer (note Note.receipt_lookup st))
after_receipts c st counted hashes (ok (some (r, mined))) = apply_receipt c c.chain counted r mined
after_receipts c st counted hashes (ok none) = waiting c counted hashes

abbrev pub counted : State → State
counted st = record st { stats = record st.stats { reconciled = st.stats.reconciled + 1 } }

-- `_reconcile`
unfoldable pub reconcile : Context → State → Run
unfolding after_receipts
reconcile c st =
    after_receipts c st (counted st) (hashes_of st.job) (find_receipt c.chain (hashes_of st.job))

-- What `_guard` leaves: the step's writes committed, or the session rolled back to its last commit.
pub record Ticked : Type 0 where
  pub db : Db
  pub cache : Cache
  pub stats : Stats

abbrev pub settled : Run → Ticked
settled (done st) = record { db = put st; cache = st.cache; stats = st.stats }
settled (raised st) = record {
  db = st.committed;
  cache = st.cache;
  stats = record st.stats { deferred = st.stats.deferred + 1 };
}

unfoldable pub guard_row : Context → Ticked → Option RelayJob → Ticked
unfolding reconcile
guard_row c t none = t
guard_row c t (some job) =
    if in_flight job.status
    then settled (
        reconcile c (record {
          db = t.db;
          job = job;
          cache = t.cache;
          stats = t.stats;
          committed = t.db;
          broadcast = [];
        }))
    else t

-- `_guard` with `_reconcile`, on a job's id.
unfoldable pub guard_reconcile : Context → Ticked → ℕ → Ticked
unfolding guard_row
guard_reconcile c t id = guard_row c t (find job_key id t.db.jobs)

-- The first loop of `tick`, over the ids of the jobs in flight, each with the node's answers of its
-- time.
pub tick_inflight : List (ℕ × Context) → Ticked → Ticked
unfolding guard_reconcile
tick_inflight [] t = t
tick_inflight ((id, c) ∷ rest) t = tick_inflight rest (guard_reconcile c t id)
