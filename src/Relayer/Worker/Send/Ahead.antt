-- ===== src/Relayer/Worker/Send/Ahead.antt =====
-- What a send (backend/app/relayer/worker.py: `_send`) puts on record before it reaches the node, and
-- what it leaves alone.
use over_under.Prelude.{
  ℕ, ◌+◌, ◌*◌, ◌≡◌, ◌≢◌, inl, inr, refl, Bool, true, false, ◌||◌, Option, none, some, List, [], ◌∷◌,
  ◌++◌, arith, any, Bool-cases, ltb, leb, ◌==◌, ==-refl, ◌∙◌, ap,
}
use over_under.Prelude.Table.{find}
use over_under.Db.{Order, RelayJob, JobStatus, Note, job_key}
use over_under.Relayer.Gas.{FeeQuote}
use over_under.Relayer.Nonce.{Cache}
use over_under.Relayer.Preflight.{Ledger, Reason}
use over_under.Relayer.Worker.{
  Block, Answer, ok, rpc_error, Tx, Context, State, settings_of, put, confirm, Verdict, landed,
  may_be, absent, fill_verdict,
}
use over_under.Relayer.Worker.Reconcile.{store_quote}
use over_under.Relayer.Worker.Send.{
  Estimate, estimated, reverts, fails, Offer, count_failed, count_cancelled, roll_back,
  retry_or_fail, matched_after_halt, signed_job, sign_and_send, on_nonce, claim, is_claimable,
}
use over_under.Relayer.Worker.Send.Prepare.{
  unsigned_tx, with_balance, with_quote, with_price, with_gas, with_estimate, retire_side,
  with_reasons, with_ledger, with_orders, prepare, after_check, signed_before, send,
}
use over_under.Relayer.Worker.Moves.Receipts.{put-row}
use over_under.Relayer.Worker.Send.Silent.{
  state_of, Silent, roll_back-Silent, count_failed-Silent, count_cancelled-Silent,
  after_send-Silent,
}

-- How a send ends: nothing was broadcast and nothing committed, or one transaction was, on the record
-- that the last commit holds of the job: in `sending`, with the transaction, its hash and its nonce.
pub data Recorded (c : Context) (st st' : State) : Type 0 where
  untouched : Silent st st' → Recorded c st st'
  written :
      (tx : Tx) (row : RelayJob)
      → st'.broadcast ≡ (c.sign tx).0 ∷ st.broadcast
      → find job_key st.job.id st'.committed.jobs ≡ some row
      → row.status ≡ JobStatus.sending
      → row.nonce ≡ some tx.nonce
      → row.raw_tx ≡ some (c.sign tx).0
      → any (λ k. k == (c.sign tx).1) row.tx_hashes ≡ true
      → Recorded c st st'

any-last : (hs : List ℕ) (h : ℕ) → any (λ k. k == h) (hs ++ h ∷ []) ≡ true
any-last [] h = ground (arith, ==-refl h)
any-last (k ∷ hs) h = ground (arith, any-last hs h)

sign_and_send-Recorded :
    (c : Context) (st : State) (tx : Tx) (block : Block) (row : RelayJob)
    → find job_key st.job.id st.db.jobs ≡ some row
    → Recorded c st (state_of (sign_and_send c st tx block))
unfolding sign_and_send store_quote
sign_and_send-Recorded c st tx block row there =
    let signed = c.sign tx in
    let st' : State = record st { job = signed_job c st.job tx signed.0 signed.1 block } in
    let (sent, kept) =
      after_send-Silent c
        (record st' { db = put st'; committed = put st'; broadcast = signed.0 ∷ st'.broadcast })
        tx.nonce (c.chain.send_raw signed.0) in
    written tx st'.job sent (ap (λ d. find job_key st.job.id d.jobs) kept ∙ put-row st' row there)
      refl refl refl (any-last st.job.tx_hashes signed.1)

retry_or_fail-Recorded : (c : Context) (st : State) → Recorded c st (state_of (retry_or_fail c st))
unfolding retry_or_fail
retry_or_fail-Recorded c st =
    let st' : State = record st { job = record st.job { attempts = st.job.attempts + 1 } } in
    elim (Bool-cases (leb (settings_of c).relayer_max_attempts (st.job.attempts + 1))) [
      | inl out ↦ rw out (
          untouched (
            count_failed-Silent st (roll_back st' JobStatus.failed Note.gave_up)
              (roll_back-Silent st' JobStatus.failed Note.gave_up)))
      | inr more ↦ rw more (untouched (refl, refl))
    ]

failed-Recorded :
    (c : Context) (st : State) (why : Note)
    → Recorded c st (count_failed (roll_back st JobStatus.failed why))
failed-Recorded c st why = untouched (
    count_failed-Silent st (roll_back st JobStatus.failed why)
      (roll_back-Silent st JobStatus.failed why))

cancelled-Recorded :
    (c : Context) (st : State) (why : Note)
    → Recorded c st (count_cancelled (roll_back st JobStatus.cancelled why))
cancelled-Recorded c st why = untouched (
    count_cancelled-Silent st (roll_back st JobStatus.cancelled why)
      (roll_back-Silent st JobStatus.cancelled why))

Recorded-cache :
    (c : Context) (st : State) (cache : Cache) (st' : State)
    → Recorded c (record st { cache = cache }) st'
    → Recorded c st st'
Recorded-cache c st cache st' (untouched h) = untouched h
Recorded-cache c st cache st' (written tx row sent kept s n r h) = written tx row sent kept s n r h

on_nonce-Recorded :
    (c : Context) (st : State) (tx : Tx) (block : Block) (reserved : Answer (ℕ × Cache))
    (row : RelayJob)
    → find job_key st.job.id st.db.jobs ≡ some row
    → Recorded c st (state_of (on_nonce c st tx block reserved))
unfolding on_nonce
on_nonce-Recorded c st tx block rpc_error row there = untouched (refl, refl)
on_nonce-Recorded c st tx block (ok reserved) row there = Recorded-cache c st reserved.1 _ (
    sign_and_send-Recorded c (record st { cache = reserved.1 }) (record tx { nonce = reserved.0 })
      block row there)

claimable_row : (r : Option RelayJob) → is_claimable r ≡ true → (row : RelayJob) × (r ≡ some row)
claimable_row none h = absurd (ground arith)
claimable_row (some row) h = (row, refl)

claim-Recorded :
    (c : Context) (o : Offer) (st : State) (tx : Tx) (block : Block)
    → Recorded c st (state_of (claim c o st tx block))
unfolding claim
claim-Recorded c o st tx block =
    elim (Bool-cases (is_claimable (find job_key st.job.id st.db.jobs))) [
      | inl mine ↦
          let (row, there) = claimable_row (find job_key st.job.id st.db.jobs) mine in
          rw mine (on_nonce-Recorded c st tx block _ row there)
      | inr taken ↦ rw taken (untouched (refl, refl))
    ]

with_balance-Recorded :
    (c : Context) (o : Offer) (st : State) (tx : Tx) (block : Block) (balance : Answer ℕ)
    → Recorded c st (state_of (with_balance c o st tx block balance))
unfolding with_balance
with_balance-Recorded c o st tx block rpc_error = retry_or_fail-Recorded c st
with_balance-Recorded c o st tx block (ok balance) =
    elim (Bool-cases (ltb balance (tx.gas * tx.quote.max_fee))) [
      | inl low ↦ rw low (untouched (refl, refl))
      | inr enough ↦ rw enough (claim-Recorded c o st tx block)
    ]

module _ (c : Context) (o : Offer) (st : State) (taker maker : Order) where
  with_quote-Recorded :
      (gas : ℕ) (block : Block) (q : Option FeeQuote)
      → Recorded c st (state_of (with_quote c o st taker maker gas block q))
  unfolding with_quote
  with_quote-Recorded gas block none = untouched (refl, refl)
  with_quote-Recorded gas block (some q) =
      with_balance-Recorded c o st (unsigned_tx c st.job taker maker gas q) block o.balance

  with_price-Recorded :
      (gas : ℕ) (block : Block) (base : Option ℕ) (price : Answer ℕ)
      → Recorded c st (state_of (with_price c o st taker maker gas block base price))
  unfolding with_price
  with_price-Recorded gas block (some base) price = with_quote-Recorded gas block _
  with_price-Recorded gas block none rpc_error = retry_or_fail-Recorded c st
  with_price-Recorded gas block none (ok price) = with_quote-Recorded gas block _

  with_gas-Recorded :
      (block : Block) (gas : Option ℕ)
      → Recorded c st (state_of (with_gas c o st taker maker block gas))
  unfolding with_gas
  with_gas-Recorded block none = failed-Recorded c st Note.gas_above_cap
  with_gas-Recorded block (some gas) = with_price-Recorded gas block block.base_fee o.gas_price

  with_estimate-Recorded :
      (block : Block) (e : Estimate)
      → Recorded c st (state_of (with_estimate c o st taker maker block e))
  unfolding with_estimate
  with_estimate-Recorded block reverts = failed-Recorded c st Note.estimate_reverted
  with_estimate-Recorded block fails = retry_or_fail-Recorded c st
  with_estimate-Recorded block (estimated e) = with_gas-Recorded block _

  retire_side-Recorded :
      (hard : List Reason) (r : Bool × State)
      → Silent st r.1
      → Recorded c st (state_of (retire_side c taker maker hard r))
  unfolding retire_side
  retire_side-Recorded hard (true, st') h = untouched h
  retire_side-Recorded hard (false, st') h = untouched h

  with_reasons-Recorded :
      (block : Block) (hard reasons : List Reason)
      → Recorded c st (state_of (with_reasons c o st taker maker block hard reasons))
  unfolding with_reasons
  with_reasons-Recorded block (r ∷ rs) reasons =
      retire_side-Recorded (r ∷ rs) (roll_back st JobStatus.failed Note.preflight_failed)
        (roll_back-Silent st JobStatus.failed Note.preflight_failed)
  with_reasons-Recorded block [] (r ∷ rs) = untouched (refl, refl)
  with_reasons-Recorded block [] [] = with_estimate-Recorded block o.estimate

  with_ledger-Recorded :
      (block : Answer Block) (l : Option Ledger)
      → Recorded c st (state_of (with_ledger c o st taker maker block l))
  unfolding with_ledger
  with_ledger-Recorded rpc_error l = retry_or_fail-Recorded c st
  with_ledger-Recorded (ok block) none = retry_or_fail-Recorded c st
  with_ledger-Recorded (ok block) (some l) = with_reasons-Recorded block _ _

with_orders-Recorded :
    (c : Context) (o : Offer) (st : State) (taker maker : Option Order)
    → Recorded c st (state_of (with_orders c o st taker maker))
unfolding with_orders
with_orders-Recorded c o st none maker = cancelled-Recorded c st Note.missing_or_cancelled
with_orders-Recorded c o st (some taker) none = cancelled-Recorded c st Note.missing_or_cancelled
with_orders-Recorded c o st (some taker) (some maker) =
    elim (Bool-cases (taker.cancelled || maker.cancelled)) [
      | inl gone ↦ rw gone (cancelled-Recorded c st Note.missing_or_cancelled)
      | inr live ↦ elim (Bool-cases (matched_after_halt c st.db st.job)) [
        | inl late ↦ rw (live, late) (failed-Recorded c st Note.market_closed)
        | inr timely ↦
            rw (live, timely)
              (with_ledger-Recorded c o st taker maker c.chain.latest_block c.chain.ledger)
      ]
    ]

prepare-Recorded :
    (c : Context) (o : Offer) (st : State) → Recorded c st (state_of (prepare c o st))
unfolding prepare
prepare-Recorded c o st = with_orders-Recorded c o st _ _

after_check-Recorded :
    (c : Context) (o : Offer) (st : State) (v : Answer Verdict)
    → Recorded c st (state_of (after_check c o st v))
unfolding after_check confirm
after_check-Recorded c o st rpc_error = untouched (refl, refl)
after_check-Recorded c o st (ok (landed h bn)) = untouched (refl, refl)
after_check-Recorded c o st (ok may_be) = untouched (refl, refl)
after_check-Recorded c o st (ok absent) = prepare-Recorded c o st

-- However the node answers, a send either broadcasts nothing and commits nothing on its own, or
-- broadcasts one transaction, the one it signed, and the last commit of the step holds the job in
-- `sending` with that transaction, its hash and its nonce: a crash behind the broadcast leaves its
-- record.
pub send-Recorded : (c : Context) (o : Offer) (st : State) → Recorded c st (state_of (send c o st))
unfolding send
send-Recorded c o st = elim (Bool-cases (signed_before st.job.tx_hashes)) [
  | inl before ↦ rw before (after_check-Recorded c o st (fill_verdict c st))
  | inr fresh ↦ rw fresh (prepare-Recorded c o st)
]

unsent_lem :
    (c : Context) (o : Offer) (st : State) (v : Answer Verdict)
    → v ≢ ok absent
    → ((state_of (after_check c o st v)).broadcast ≡ st.broadcast)
      × ((state_of (after_check c o st v)).db.orders ≡ st.db.orders)
unfolding after_check confirm
unsent_lem c o st rpc_error ne = (refl, refl)
unsent_lem c o st (ok (landed h bn)) ne = (refl, refl)
unsent_lem c o st (ok may_be) ne = (refl, refl)
unsent_lem c o st (ok absent) ne = absurd (ne refl)

-- A pending job that was signed before, and whose fill is not known to be absent from the chain, is
-- not sent again: nothing is broadcast, and no order gives its fill back.
pub send_unsent :
    (c : Context) (o : Offer) (st : State)
    → signed_before st.job.tx_hashes ≡ true
    → fill_verdict c st ≢ ok absent
    → ((state_of (send c o st)).broadcast ≡ st.broadcast)
      × ((state_of (send c o st)).db.orders ≡ st.db.orders)
unfolding send
send_unsent c o st before ne = rw before (unsent_lem c o st (fill_verdict c st) ne)
