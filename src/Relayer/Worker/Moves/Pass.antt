-- ===== src/Relayer/Worker/Moves/Pass.antt =====
-- What a whole pass may do to a job in flight (backend/app/relayer/worker.py: `_settle_consumed`,
-- `_reconcile`).
use over_under.Prelude.{
  ℕ, ◌+◌, ◌≤◌, ◌≡◌, inl, inr, refl, Bool, true, false, Option, none, some, List, [], ◌∷◌, arith,
  Bool-cases, ltb, leb, sym, ◌∙◌, ap, ◌≢◌, ◌&&◌, ◌==◌, any,
}
use over_under.Prelude.Table.{find}
use over_under.Relayer.Worker.Retire.{by_hash}
use over_under.Db.{RelayJob, JobStatus, Note, job_key}
use over_under.Relayer.Queue.{in_flight}
use over_under.Relayer.Worker.{
  Answer, ok, rpc_error, Receipt, Log, is_fill_log, has_fill_log, Tx, Context, State, done,
  settings_of, defer, or_zero, hashes_of, find_receipt, confirm, Verdict, landed, may_be, absent,
  fill_verdict,
}
use over_under.Relayer.Worker.Settle.{
  resync_nonce, settle_consumed, settle_verdict, not_past, consumed_at, sender_of, lag_end,
  back_to_pending,
}
use over_under.Relayer.Worker.Reconcile.{
  gas_of, is_some, is_sending, bump, waiting, reconcile, after_receipts, counted,
}
use over_under.Relayer.Worker.Moves.{
  on_record, just_signed, Replacement, Judged, Receipted, receipted, Displaced, displaced_by,
  Because, mined_good, on_log, mined_bad, displaced, Post, in_flight-Because,
}
use over_under.Relayer.Worker.Moves.Receipts.{
  Post-then, resync_nonce-Post, ended, After, Keep, receipt-Post,
}
use over_under.Relayer.Worker.Moves.Sends.{rebroadcast-Post, keep_alive-Post, bump_parts-Post}

Judged-logs :
    (c : Context) (j : RelayJob) (r : Receipt) (logs : Option (List Log)) (b : Bool)
    → r.status ≡ 1
    → r.logs ≡ logs
    → (elim logs [ none ↦ true | some lgs ↦ any (is_fill_log c j) lgs ]) ≡ b
    → Judged c j r b
Judged-logs c j r none true s e t = (s, inl e)
Judged-logs c j r none false s e t = absurd (ground (arith, t))
Judged-logs c j r (some logs) true s e t = (s, inr (logs, e, t))
Judged-logs c j r (some logs) false s e t = inr (logs, e, t)

Judged-status :
    (c : Context) (j : RelayJob) (r : Receipt) (b : Bool)
    → r.status ≢ 1
    → b ≡ false
    → Judged c j r b
Judged-status c j r false s e = inl s
Judged-status c j r true s e = absurd (ground (arith, e))

has_fill_log_lem :
    (c : Context) (j : RelayJob) (r : Receipt)
    → has_fill_log c j r ≡ (elim r.logs [ none ↦ true | some lgs ↦ any (is_fill_log c j) lgs ])
unfolding has_fill_log
has_fill_log_lem c j r = refl

judged :
    (c : Context) (j : RelayJob) (r : Receipt) (b : Bool)
    → (r.status == 1 && has_fill_log c j r) ≡ b
    → Judged c j r b
judged c j r b e = elim (Bool-cases (r.status == 1)) [
  | inl good ↦
      Judged-logs c j r r.logs b (ground (arith, good)) refl
        (sym (has_fill_log_lem c j r) ∙ (ap (λ k. k && has_fill_log c j r) (sym good) ∙ e))
  | inr bad ↦
      Judged-status c j r b (ground (arith, bad)) (sym e ∙ ap (λ k. k && has_fill_log c j r) bad)
]

sent_lem : (s : JobStatus) → in_flight s ≡ true → is_sending s ≡ false → s ≡ JobStatus.sent
sent_lem JobStatus.sent h e = refl
sent_lem JobStatus.sending h e = absurd (ground (arith, e))
sent_lem JobStatus.pending h e = absurd (ground (arith, h))
sent_lem JobStatus.confirmed h e = absurd (ground (arith, h))
sent_lem JobStatus.failed h e = absurd (ground (arith, h))
sent_lem JobStatus.cancelled h e = absurd (ground (arith, h))

is_some-false : (n : Option ℕ) → is_some n ≡ false → n ≡ none
is_some-false none e = refl
is_some-false (some k) e = absurd (ground (arith, e))

module _ (P : JobStatus → Type 0) (c : Context) (st : State) (fly : in_flight st.job.status ≡ true)
    (keep : Keep P)
    (in_logs : (h bn : ℕ) → fill_verdict c st ≡ ok (landed h bn) → P JobStatus.confirmed)
    (lost : Displaced c st → P JobStatus.pending) where
  settle_verdict-Post :
      (v : Answer Verdict)
      → fill_verdict c st ≡ v
      → (fill_verdict c st ≡ ok absent → Displaced c st)
      → Post P (settle_verdict c st v)
  unfolding settle_verdict Post confirm
  settle_verdict-Post rpc_error e d = keep st.job.status fly
  settle_verdict-Post (ok (landed h bn)) e d = in_logs h bn e
  settle_verdict-Post (ok may_be) e d = keep st.job.status fly
  settle_verdict-Post (ok absent) e d =
      let back : State = record st { job = back_to_pending c Note.consumed_by_other 0 st.job } in
      Post-then P (resync_nonce c back) (λ st'. done (defer st'))
        (resync_nonce-Post P c back (lost (d e))) (λ st' b. b)

  consumed_at-Post :
      (a : Answer ℕ)
      → c.chain.latest_nonce (sender_of c st.job) ≡ a
      → lag_end c st.job ≤ c.now
      → Post P (consumed_at c st a)
  unfolding consumed_at Post
  consumed_at-Post rpc_error e late = keep st.job.status fly
  consumed_at-Post (ok latest) e late = elim (Bool-cases (not_past st.job.nonce latest)) [
    | inl behind ↦ rw behind (keep st.job.status fly)
    | inr past ↦
        rw past
          (settle_verdict-Post (fill_verdict c st) refl (λ a. displaced_by latest late e past a))
  ]

  settle_consumed-Post : Post P (settle_consumed c st)
  unfolding settle_consumed Post
  settle_consumed-Post = elim (Bool-cases (ltb c.now (lag_end c st.job))) [
    | inl young ↦ rw young (keep st.job.status fly)
    | inr late ↦
        rw late (consumed_at-Post (c.chain.latest_nonce (sender_of c st.job)) refl (ground arith))
  ]

  waiting-Post :
      (hashes : List ℕ) (row : RelayJob)
      → find job_key st.job.id st.db.jobs ≡ some row
      → After P c st.job hashes
      → ((tx : Tx) → Replacement c st tx → After P c st.job ((c.sign tx).1 ∷ []))
      → Post P (waiting c st hashes)
  unfolding waiting Post bump
  waiting-Post hashes row there after signed = elim (Bool-cases (is_sending st.job.status)) [
    | inl sending ↦ rw sending (rebroadcast-Post P c st hashes row there fly keep after)
    | inr sent ↦ elim (Bool-cases (is_some st.job.nonce_consumed_at)) [
      | inl used ↦ rw (sent, used) settle_consumed-Post
      | inr free ↦ elim (Bool-cases (leb (settings_of c).relayer_max_attempts st.job.attempts)) [
        | inl out ↦ rw (sent, free, out) (keep_alive-Post P c st hashes row there fly keep after)
        | inr more ↦
            elim (Bool-cases (
              ltb c.now
                (or_zero st.job.sent_at + (settings_of c).relayer_resubmit_after_seconds))) [
                  | inl young ↦ rw (sent, free, more, young) (keep st.job.status fly)
                  | inr due ↦
                      rw (sent, free, more, due)
                        (bump_parts-Post P c st hashes row there fly keep after
                          (record {
                            is_sent = sent_lem st.job.status fly sent;
                            unused = is_some-false st.job.nonce_consumed_at free;
                            attempts_left = ground (arith, more);
                            waited = ground (arith, due);
                          })
                          signed (by_hash st.job.taker_hash st.db.orders)
                          (by_hash st.job.maker_hash st.db.orders) st.job.nonce
                          (gas_of st.job.gas_limit) refl refl refl refl)
                ]
      ]
    ]
  ]

ended-Because : (c : Context) (st : State) (b : Bool) → Receipted c st b → Because c st (ended b)
ended-Because c st true e = mined_good e
ended-Because c st false e = mined_bad e

on_record-After : (c : Context) (st : State) → After (Because c st) c st.job (hashes_of st.job)
on_record-After c st chain r h b which got own test =
    ended-Because c st b (receipted chain r h which got (on_record own) (judged c st.job r b test))

just_signed-After :
    (c : Context) (st : State) (tx : Tx)
    → find_receipt c.chain (hashes_of st.job) ≡ ok none
    → Replacement c st tx
    → After (Because c st) c st.job ((c.sign tx).1 ∷ [])
just_signed-After c st tx unmined ours chain r h b which got own test = ended-Because c st b (
    receipted chain r h which got (just_signed tx unmined ours (ground (arith, own)))
      (judged c st.job r b test))

-- The count of the pass is not read by a replacement.
Replacement-counted :
    (c : Context) (st : State) (tx : Tx) → Replacement c (counted st) tx → Replacement c st tx
Replacement-counted c st tx r = record {
  rebuilt = record {
    on_chain = r.rebuilt.on_chain;
    own_nonce = r.rebuilt.own_nonce;
    to_exchange = r.rebuilt.to_exchange;
    own_gas = r.rebuilt.own_gas;
    own_taker = r.rebuilt.own_taker;
    own_maker = r.rebuilt.own_maker;
    own_fill = r.rebuilt.own_fill;
  };
  due = r.due;
  block = r.block;
  latest = r.latest;
  outbids = r.outbids;
}

-- The pass has been counted; no check reads the counts.
fill_verdict-counted : (c : Context) (st : State) → fill_verdict c (counted st) ≡ fill_verdict c st
unfolding fill_verdict
fill_verdict-counted c st = refl

Displaced-counted : (c : Context) (st : State) → Displaced c (counted st) → Displaced c st
Displaced-counted c st (displaced_by latest late e past v) =
    displaced_by latest late e past (sym (fill_verdict-counted c st) ∙ v)

after_receipts-Post :
    (c : Context) (st : State) (row : RelayJob) (found : Answer (Option (Receipt × ℕ)))
    → find_receipt c.chain (hashes_of st.job) ≡ found
    → find job_key st.job.id st.db.jobs ≡ some row
    → in_flight st.job.status ≡ true
    → Post (Because c st) (after_receipts c st (counted st) (hashes_of st.job) found)
unfolding after_receipts Post
after_receipts-Post c st row rpc_error e there fly = in_flight-Because c st st.job.status fly
after_receipts-Post c st row (ok (some (r, h))) e there fly =
    receipt-Post (Because c st) c (counted st) c.chain (hashes_of st.job) r h row there fly
      (in_flight-Because c st) (on_record-After c st) (inl refl) e
after_receipts-Post c st row (ok none) e there fly =
    waiting-Post (Because c st) c (counted st) fly (in_flight-Because c st)
      (λ h bn v. on_log h bn (sym (fill_verdict-counted c st) ∙ v))
      (λ d. displaced (Displaced-counted c st d)) (hashes_of st.job) row there
      (on_record-After c st)
      (λ tx ours. just_signed-After c st tx e (Replacement-counted c st tx ours))

-- A pass of `_reconcile` over a job in flight whose row exists either raises (and is rolled back), or
-- leaves the job in flight, or moves it on evidence. To confirmed: on a successful receipt of one of
-- the job's transactions, whose logs hold the job's fill or which the node answers without logs, or on
-- a fill found in the logs of its transactions. To failed: on a receipt of such a transaction that
-- reverted or whose logs do not hold the fill. Back to pending: when the lag window has passed, the
-- account's nonce is past the job's, and the search for the fill ended in "absent". It is never
-- cancelled. The job's transactions are those on its record, and, where a bump is due and none of them
-- has a receipt, the replacement that the pass signs: the same match of the same orders to the
-- Exchange, on the job's own nonce and gas limit, at the bumped fees.
pub reconcile-Because :
    (c : Context) (st : State) (row : RelayJob)
    → find job_key st.job.id st.db.jobs ≡ some row
    → in_flight st.job.status ≡ true
    → Post (Because c st) (reconcile c st)
unfolding reconcile
reconcile-Because c st row =
    after_receipts-Post c st row (find_receipt c.chain (hashes_of st.job)) refl
