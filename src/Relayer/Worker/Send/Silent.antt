-- ===== src/Relayer/Worker/Send/Silent.antt =====
-- The steps behind a broadcast (backend/app/relayer/worker.py) that broadcast nothing and commit
-- nothing on their own.
use over_under.Prelude.{
  ℕ, ◌+◌, ◌≡◌, inl, inr, refl, Bool, true, false, ◌&&◌, Option, none, some, max, List, Bool-cases,
  ltb, leb, ◌==◌, if◌then◌else◌, ◌∙◌,
}
use over_under.Db.{JobStatus, Note}
use over_under.Relayer.Queue.{rollback_job}
use over_under.Relayer.Worker.{
  Sent, accepted, nonce_low, known, underpriced, insufficient_funds, revert, transient, Receipt,
  Chain, Context, State, Run, done, raised, ◌>>=◌, settings_of, put, hashes_of, find_receipt,
  has_fill_log, confirm,
}
use over_under.Relayer.Worker.Settle.{
  apply_receipt, retired, settle_success, settle_failure, after_rollback, record_mined,
  resync_nonce, nonce_consumed, after_lookup, found_or_none,
}
use over_under.Relayer.Worker.Send.{count_failed, count_cancelled, roll_back, after_send}
use over_under.Relayer.Worker.Moves.{Answer-cases}

abbrev pub state_of : Run → State
state_of (done st) = st
state_of (raised st) = st

-- The step broadcasts nothing and commits nothing.
abbrev pub Silent : State → State → Type 0
Silent st st' = (st'.broadcast ≡ st.broadcast) × (st'.committed ≡ st.committed)

resync_nonce-Silent : (c : Context) (st : State) → Silent st (state_of (resync_nonce c st))
unfolding resync_nonce
resync_nonce-Silent c st = elim (Answer-cases c.chain_after.pending_nonce) [
  | inl e ↦ rw e (refl, refl)
  | inr (n, e) ↦ rw e (refl, refl)
]

settle_success-Silent :
    (c : Context) (chain : Chain) (st : State) (h bn : ℕ)
    → Silent st (state_of (settle_success c chain st h bn))
unfolding settle_success confirm
settle_success-Silent c chain st h bn =
    elim (Bool-cases (leb (max 1 (settings_of c).relayer_confirmations) 1)) [
      | inl one ↦ rw one (refl, refl)
      | inr more ↦ elim (Answer-cases chain.latest_block) [
        | inl e ↦ rw (more, e) (refl, refl)
        | inr (b, e) ↦
            rw (more, e)
              (elim (Bool-cases
                (ltb (b.number + 1) (max 1 (settings_of c).relayer_confirmations + bn))) [
                  | inl young ↦ rw young (refl, refl)
                  | inr deep ↦ rw deep (refl, refl)
                ])
      ]
    ]

retired-Silent :
    (c : Context) (chain : Chain) (b : Bool) (st : State) → Silent st (retired c chain b st)
retired-Silent c chain true st = (refl, refl)
retired-Silent c chain false st = (refl, refl)

Silent-trans : (a b c : State) → Silent a b → Silent b c → Silent a c
Silent-trans a b c h k = (k.0 ∙ h.0, k.1 ∙ h.1)

settle_failure-Silent :
    (c : Context) (chain : Chain) (st : State) (h bn : ℕ) (why : Note)
    → Silent st (state_of (settle_failure c chain st h bn why))
unfolding settle_failure record_mined after_rollback
settle_failure-Silent c chain st h bn why =
    retired-Silent c chain (rollback_job (put st) st.job.id st.job.status JobStatus.failed why).0 _

apply_receipt-Silent :
    (c : Context) (chain : Chain) (st : State) (r : Receipt) (h : ℕ)
    → Silent st (state_of (apply_receipt c chain st r h))
unfolding apply_receipt
apply_receipt-Silent c chain st r h = elim (Bool-cases (r.status == 1 && has_fill_log c st.job r)) [
  | inl e ↦ rw e (settle_success-Silent c chain st h r.block_number)
  | inr e ↦ rw e (
      settle_failure-Silent c chain st h r.block_number
        (if r.status == 1 then Note.receipt_without_fill else Note.receipt_reverted))
]

after_lookup-Silent :
    (c : Context) (st : State) (found : Option (Receipt × ℕ))
    → Silent st (state_of (after_lookup c st found))
unfolding after_lookup
after_lookup-Silent c st none = (refl, refl)
after_lookup-Silent c st (some (r, h)) = apply_receipt-Silent c c.chain_after st r h

nonce_consumed-Silent :
    (c : Context) (st : State) (hashes : List ℕ) → Silent st (state_of (nonce_consumed c st hashes))
unfolding nonce_consumed
nonce_consumed-Silent c st hashes =
    after_lookup-Silent c st (found_or_none (find_receipt c.chain_after hashes))

pub roll_back-Silent :
    (st : State) (status : JobStatus) (why : Note) → Silent st (roll_back st status why).1
unfolding roll_back after_rollback
roll_back-Silent st status why = (refl, refl)

pub count_failed-Silent :
    (st : State) (r : Bool × State) → Silent st r.1 → Silent st (count_failed r)
count_failed-Silent st (true, st') h = h
count_failed-Silent st (false, st') h = h

pub count_cancelled-Silent :
    (st : State) (r : Bool × State) → Silent st r.1 → Silent st (count_cancelled r)
count_cancelled-Silent st (true, st') h = h
count_cancelled-Silent st (false, st') h = h

then-Silent :
    (st : State) (m : Run) (f : State → Run)
    → Silent st (state_of m)
    → ((st' : State) → Silent st' (state_of (f st')))
    → Silent st (state_of (m >>= f))
then-Silent st (done st') f h k = Silent-trans st st' (state_of (f st')) h (k st')
then-Silent st (raised st') f h k = h

pub after_send-Silent :
    (c : Context) (st : State) (nonce : ℕ) (s : Sent)
    → Silent st (state_of (after_send c st nonce s))
unfolding after_send
after_send-Silent c st nonce accepted = (refl, refl)
after_send-Silent c st nonce known = (refl, refl)
after_send-Silent c st nonce nonce_low =
    then-Silent st (resync_nonce c st) _ (resync_nonce-Silent c st)
      (λ st'. nonce_consumed-Silent c st' (hashes_of st'.job))
after_send-Silent c st nonce underpriced =
    then-Silent st (resync_nonce c st) _ (resync_nonce-Silent c st) (λ st'. (refl, refl))
after_send-Silent c st nonce insufficient_funds = (refl, refl)
after_send-Silent c st nonce revert = (refl, refl)
after_send-Silent c st nonce transient = (refl, refl)
