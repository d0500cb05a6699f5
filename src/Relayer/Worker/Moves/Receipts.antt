-- ===== src/Relayer/Worker/Moves/Receipts.antt =====
-- What a receipt, and a nonce that is used up, may do to a job in flight (backend/app/relayer/worker.py:
-- `_apply_receipt`, `_nonce_consumed`, `_resync`).
use over_under.Prelude.{
  ℕ, ◌+◌, ◌≡◌, ◌⊎◌, inl, inr, refl, Bool, true, false, ◌&&◌, Option, none, some, List, [], ◌∷◌,
  arith, any, Bool-cases, max, ltb, leb, ◌==◌, if◌then◌else◌, ==-refl,
}
use over_under.Prelude.Table.{find, modify}
use over_under.Db.{RelayJob, JobStatus, Note, job_key}
use over_under.Relayer.Queue.{in_flight}
use over_under.Relayer.Queue.Rollback.{rollback_job_hit, closed_row}
use over_under.Relayer.Worker.{
  Answer, ok, rpc_error, Receipt, Chain, Context, State, Run, done, raised, ◌>>=◌, settings_of, put,
  find_receipt, has_fill_log, confirm,
}
use over_under.Relayer.Worker.Settle.{
  apply_receipt, promoted, settle_success, settle_failure, after_rollback, record_mined,
  resync_nonce, nonce_consumed, after_lookup, found_or_none,
}
use over_under.Relayer.Worker.Moves.{Post, in_flight_live, Answer-cases}

module _ (P : JobStatus → Type 0) where
  pub Post-then :
      (m : Run) (f : State → Run)
      → Post P m
      → ((st' : State) → P st'.job.status → Post P (f st'))
      → Post P (m >>= f)
  unfolding Post
  Post-then (done st') f b next = next st' b
  Post-then (raised st') f p next = tt

  pub resync_nonce-Post : (c : Context) (st : State) → P st.job.status → Post P (resync_nonce c st)
  unfolding resync_nonce Post
  resync_nonce-Post c st b = elim (Answer-cases c.chain_after.pending_nonce) [
    | inl e ↦ rw e tt
    | inr (n, e) ↦ rw e b
  ]

  settle_success-Post :
      (c : Context) (st : State) (chain : Chain) (h bn : ℕ)
      → P (promoted c st.job).status
      → P JobStatus.confirmed
      → Post P (settle_success c chain st h bn)
  unfolding settle_success Post confirm
  settle_success-Post c st chain h bn fly good =
      elim (Bool-cases (leb (max 1 (settings_of c).relayer_confirmations) 1)) [
        | inl one ↦ rw one good
        | inr more ↦ elim (Answer-cases chain.latest_block) [
          | inl e ↦ rw (more, e) tt
          | inr (b, e) ↦
              rw (more, e)
                (elim (Bool-cases
                  (ltb (b.number + 1) (max 1 (settings_of c).relayer_confirmations + bn))) [
                    | inl young ↦ rw young fly
                    | inr deep ↦ rw deep good
                  ])
        ]
      ]

find_receipt-Own :
    (c : Chain) (hashes : List ℕ) (r : Receipt) (h : ℕ)
    → find_receipt c hashes ≡ ok (some (r, h))
    → (c.get_receipt h ≡ ok (some r)) × (any (λ k. k == h) hashes ≡ true)
unfolding find_receipt
find_receipt-Own c [] r h e = absurd (ground arith)
find_receipt-Own c (k ∷ hs) r h e = ground (arith, find_receipt-Own c hs r h, ==-refl k)

replace-found :
    (rows : List RelayJob) (j row : RelayJob)
    → find job_key j.id rows ≡ some row
    → find job_key j.id (modify job_key j.id (λ r. j) rows) ≡ some j
replace-found [] j row e = absurd (ground arith)
replace-found (x ∷ rows) j row e = ground (arith, ==-refl j.id, replace-found rows j row)

-- The job's row, once the job's object stands in it.
pub put-row :
    (st : State) (row : RelayJob)
    → find job_key st.job.id st.db.jobs ≡ some row
    → find job_key st.job.id (put st).jobs ≡ some st.job
put-row st row e = replace-found st.db.jobs st.job row e

settle_failure-Post :
    (P : JobStatus → Type 0) (c : Context) (st : State) (chain : Chain) (h bn : ℕ) (why : Note)
    (row : RelayJob)
    → find job_key st.job.id st.db.jobs ≡ some row
    → in_flight st.job.status ≡ true
    → P JobStatus.failed
    → Post P (settle_failure c chain st h bn why)
unfolding settle_failure Post after_rollback record_mined
settle_failure-Post P c st chain h bn why row there fly bad =
    rw
      (rollback_job_hit (put st) st.job st.job.id JobStatus.failed why (put-row st row there)
        (in_flight_live st.job.status fly))
      (rw (closed_row (put st) st.job st.job.id JobStatus.failed why (put-row st row there)) bad)

promoted_flies :
    (c : Context) (j : RelayJob)
    → in_flight j.status ≡ true
    → in_flight (promoted c j).status ≡ true
promoted_flies c j h = ground arith

-- What a receipt does to the job, on either of its kinds.
apply_receipt-Post :
    (P : JobStatus → Type 0) (c : Context) (st : State) (chain : Chain) (r : Receipt) (h : ℕ)
    (row : RelayJob)
    → find job_key st.job.id st.db.jobs ≡ some row
    → in_flight st.job.status ≡ true
    → ((s : JobStatus) → in_flight s ≡ true → P s)
    → ((r.status == 1 && has_fill_log c st.job r) ≡ true → P JobStatus.confirmed)
    → ((r.status == 1 && has_fill_log c st.job r) ≡ false → P JobStatus.failed)
    → Post P (apply_receipt c chain st r h)
unfolding apply_receipt
apply_receipt-Post P c st chain r h row there fly keep good bad =
    elim (Bool-cases (r.status == 1 && has_fill_log c st.job r)) [
      | inl e ↦ rw e (
          settle_success-Post P c st chain h r.block_number
            (keep (promoted c st.job).status (promoted_flies c st.job fly)) (good e))
      | inr e ↦ rw e (
          settle_failure-Post P c st chain h r.block_number
            (if r.status == 1 then Note.receipt_without_fill else Note.receipt_reverted) row there
            fly (bad e))
    ]

abbrev pub ended : Bool → JobStatus
ended true = JobStatus.confirmed
ended false = JobStatus.failed

-- A receipt of one of the hashes allows the status that it stands for.
abbrev pub After : (JobStatus → Type 0) → Context → RelayJob → List ℕ → Type 0
After P c j hashes =
    (chain : Chain) (r : Receipt) (h : ℕ) (b : Bool)
    → (chain ≡ c.chain) ⊎ (chain ≡ c.chain_after)
    → chain.get_receipt h ≡ ok (some r)
    → any (λ k. k == h) hashes ≡ true
    → (r.status == 1 && has_fill_log c j r) ≡ b
    → P (ended b)

abbrev pub Keep : (JobStatus → Type 0) → Type 0
Keep P = (s : JobStatus) → in_flight s ≡ true → P s

pub receipt-Post :
    (P : JobStatus → Type 0) (c : Context) (st : State) (chain : Chain) (hashes : List ℕ)
    (r : Receipt) (h : ℕ) (row : RelayJob)
    → find job_key st.job.id st.db.jobs ≡ some row
    → in_flight st.job.status ≡ true
    → Keep P
    → After P c st.job hashes
    → (chain ≡ c.chain) ⊎ (chain ≡ c.chain_after)
    → find_receipt chain hashes ≡ ok (some (r, h))
    → Post P (apply_receipt c chain st r h)
receipt-Post P c st chain hashes r h row there fly keep after which e =
    let (got, own) = find_receipt-Own chain hashes r h e in
    apply_receipt-Post P c st chain r h row there fly keep (after chain r h true which got own)
      (after chain r h false which got own)

after_lookup-Post :
    (P : JobStatus → Type 0) (c : Context) (st : State) (hashes : List ℕ) (row : RelayJob)
    (found : Answer (Option (Receipt × ℕ)))
    → find_receipt c.chain_after hashes ≡ found
    → find job_key st.job.id st.db.jobs ≡ some row
    → in_flight st.job.status ≡ true
    → Keep P
    → After P c st.job hashes
    → Post P (after_lookup c st (found_or_none found))
unfolding after_lookup Post
after_lookup-Post P c st hashes row rpc_error e there fly keep after = keep JobStatus.sent refl
after_lookup-Post P c st hashes row (ok none) e there fly keep after = keep JobStatus.sent refl
after_lookup-Post P c st hashes row (ok (some (r, h))) e there fly keep after =
    receipt-Post P c st c.chain_after hashes r h row there fly keep after (inr refl) e

nonce_consumed-Post :
    (P : JobStatus → Type 0) (c : Context) (st : State) (hashes : List ℕ) (row : RelayJob)
    → find job_key st.job.id st.db.jobs ≡ some row
    → in_flight st.job.status ≡ true
    → Keep P
    → After P c st.job hashes
    → Post P (nonce_consumed c st hashes)
unfolding nonce_consumed
nonce_consumed-Post P c st hashes row =
    after_lookup-Post P c st hashes row (find_receipt c.chain_after hashes) refl

pub consumed_resync-Post :
    (P : JobStatus → Type 0) (c : Context) (st : State) (hashes : List ℕ) (row : RelayJob)
    → find job_key st.job.id st.db.jobs ≡ some row
    → in_flight st.job.status ≡ true
    → Keep P
    → After P c st.job hashes
    → Post P (nonce_consumed c st hashes >>= resync_nonce c)
consumed_resync-Post P c st hashes row there fly keep after =
    Post-then P (nonce_consumed c st hashes) (resync_nonce c)
      (nonce_consumed-Post P c st hashes row there fly keep after)
      (λ st' b. resync_nonce-Post P c st' b)
