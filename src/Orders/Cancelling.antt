-- ===== src/Orders/Cancelling.antt =====
-- What DELETE /orders/{order_hash} of backend/app/orderbook/router.py leaves.
use over_under.Prelude.{
  ℕ, ◌≤◌, ◌≡◌, ◌≢◌, refl, sym, subst, ap, ◌∙◌, ◌⊎◌, inl, inr, Bool, true, false, ◌||◌, Option, none,
  some, List, [], ◌∷◌, arith, ltb, ◌==◌, any, sum_by, All, All-map, All-keep, Bool-cases,
}
use native.Mathlib.Decide.{ℕ_discrete}
use over_under.Prelude.Table.{
  find, Keyed, Keyed-found, find-modify_self, find-modify_ne, find-map, find-key, find-All,
}
use over_under.Db.{Db, Order, RelayJob, JobStatus, Note, order_key, job_key}
use over_under.Orderbook.Rows.{set_cancelled}
use over_under.Relayer.Queue.{rollback_job, undo_fill, close_job, is_terminal, lower_where}
use over_under.Relayer.Queue.Rollback.{rollback_job_cases, rollback_job_hit, closed_row}
use over_under.Orders.Post.{order_hash_key}
use over_under.Orders.Cancel.{
  CancelAnswer, is_of, jobs_of, is_pending, unsent_fill, sent_once, exposed, Sweep, note_job,
  sweep_job, sweep, begin_sweep, some_id, cancel_row, cancel,
}

-- The job with this id, if there is one, waits no longer.
abbrev pub NotPending : Option RelayJob → Type 0
NotPending none = Unit
NotPending (some r) = is_pending r ≡ false

abbrev pub Settled : Db → ℕ → Type 0
Settled db k = NotPending (find job_key k db.jobs)

-- A job of the loop's list still stands as it was read, or is settled.
abbrev Known : Db → RelayJob → Type 0
Known db j = (find job_key j.id db.jobs ≡ some j) ⊎ Settled db j.id

close_job_key :
    (reason : Note) (r : RelayJob) → job_key (close_job JobStatus.cancelled reason r) ≡ job_key r
close_job_key reason r = refl

-- A rollback settles its own job and leaves the others.
undo_fill_self :
    (db : Db) (row : RelayJob) (reason : Note) (k : ℕ)
    → find job_key k db.jobs ≡ some row
    → Settled (undo_fill db row JobStatus.cancelled reason) k
undo_fill_self db row reason k e =
    subst NotPending (sym (closed_row db row k JobStatus.cancelled reason e)) refl

undo_fill_other :
    (db : Db) (row : RelayJob) (reason : Note) (k : ℕ)
    → k ≢ row.id
    → find job_key k (undo_fill db row JobStatus.cancelled reason).jobs ≡ find job_key k db.jobs
unfolding undo_fill
undo_fill_other db row reason k ne =
    find-modify_ne job_key row.id (close_job JobStatus.cancelled reason) k db.jobs
      (close_job_key reason) ne

undo_fill-Known :
    (db : Db) (row : RelayJob) (reason : Note) (id : ℕ) (j : RelayJob)
    → find job_key id db.jobs ≡ some row
    → Known db j
    → Known (undo_fill db row JobStatus.cancelled reason) j
undo_fill-Known db row reason id j e k = elim (ℕ_discrete j.id row.id) [
  | yes s ↦ inr (
      undo_fill_self db row reason j.id
        (ap (λ x. find job_key x db.jobs) (s ∙ find-key job_key id db.jobs row e) ∙ e))
  | no ne ↦ subst (λ o. (o ≡ some j) ⊎ NotPending o) (sym (undo_fill_other db row reason j.id ne)) k
]

undo_fill-Settled :
    (db : Db) (row : RelayJob) (reason : Note) (id k : ℕ)
    → find job_key id db.jobs ≡ some row
    → Settled db k
    → Settled (undo_fill db row JobStatus.cancelled reason) k
undo_fill-Settled db row reason id k e s = elim (ℕ_discrete k row.id) [
  | yes q ↦
      undo_fill_self db row reason k
        (ap (λ x. find job_key x db.jobs) (q ∙ find-key job_key id db.jobs row e) ∙ e)
  | no ne ↦ subst NotPending (sym (undo_fill_other db row reason k ne)) s
]

-- The order with this id is there and cancelled.
abbrev pub Stopped : Db → ℕ → Type 0
Stopped db id = (r : Order) × (find order_key id db.orders ≡ some r) × (r.cancelled ≡ true)

undo_fill-Stopped :
    (db : Db) (row : RelayJob) (reason : Note) (id : ℕ)
    → Stopped db id
    → Stopped (undo_fill db row JobStatus.cancelled reason) id
unfolding undo_fill
undo_fill-Stopped db row reason id (r, e, c) =
    let f = lower_where row.taker_hash row.maker_hash row.fill_amount in
    (f r, find-map order_key id f db.orders r (λ x. ground arith) e, ground (arith, c))

-- What a round of the loop does with the database: nothing, or a rollback of the job's row.
Swept : Db → RelayJob → Db → Type 0
Swept db j after =
    ((after ≡ db) × (Known db j → Settled db j.id))
    ⊎ ((row : RelayJob) × (find job_key j.id db.jobs ≡ some row)
        × (after ≡ undo_fill db row JobStatus.cancelled Note.order_cancelled))

pending_live : (j : RelayJob) → is_pending j ≡ true → is_terminal j.status ≡ false
pending_live j h = ground (arith, h)

note_missed : (w : Sweep) (id : ℕ) → (note_job w id (false, w.db)).db ≡ w.db
note_missed w id = ground arith

missed-Settled :
    (db : Db) (j : RelayJob)
    → is_pending j ≡ true
    → rollback_job db j.id j.status JobStatus.cancelled Note.order_cancelled ≡ (false, db)
    → Known db j
    → Settled db j.id
missed-Settled db j p m (inr k) = k
missed-Settled db j p m (inl e) = absurd (
    ground (
      arith,
      m,
      rollback_job_hit db j j.id JobStatus.cancelled Note.order_cancelled e (pending_live j p),
    ))

idle-Settled : (db : Db) (j : RelayJob) → is_pending j ≡ false → Known db j → Settled db j.id
idle-Settled db j p (inr k) = k
idle-Settled db j p (inl e) = subst NotPending (sym e) p

sweep_job-Swept : (w : Sweep) (j : RelayJob) → Swept w.db j (sweep_job w j).db
unfolding sweep_job Swept
sweep_job-Swept w j = elim (Bool-cases (is_pending j)) [
  | inr e ↦ inl (ground (arith, e), idle-Settled w.db j e)
  | inl e ↦ elim (rollback_job_cases w.db j.id j.status JobStatus.cancelled Note.order_cancelled) [
    | inr m ↦ rw (e, m) (inl (note_missed w j.id, missed-Settled w.db j e m))
    | inl (row, found, same, live, m) ↦ rw (e, m) (inr (row, found, refl))
  ]
]

Swept-settles :
    (db : Db) (j : RelayJob) (after : Db) → Swept db j after → Known db j → Settled after j.id
unfolding Swept
Swept-settles db j after (inl (e, f)) k = subst (λ d. Settled d j.id) (sym e) (f k)
Swept-settles db j after (inr (row, e, f)) k =
    subst (λ d. Settled d j.id) (sym f) (undo_fill_self db row Note.order_cancelled j.id e)

Swept-keeps :
    (db : Db) (j : RelayJob) (after : Db) (other : RelayJob)
    → Swept db j after
    → Known db other
    → Known after other
unfolding Swept
Swept-keeps db j after other (inl (e, f)) k = subst (λ d. Known d other) (sym e) k
Swept-keeps db j after other (inr (row, e, f)) k =
    subst (λ d. Known d other) (sym f) (undo_fill-Known db row Note.order_cancelled j.id other e k)

Swept-Settled :
    (db : Db) (j : RelayJob) (after : Db) (id : ℕ)
    → Swept db j after
    → Settled db id
    → Settled after id
unfolding Swept
Swept-Settled db j after id (inl (e, f)) k = subst (λ d. Settled d id) (sym e) k
Swept-Settled db j after id (inr (row, e, f)) k =
    subst (λ d. Settled d id) (sym f) (undo_fill-Settled db row Note.order_cancelled j.id id e k)

Swept-Stopped :
    (db : Db) (j : RelayJob) (after : Db) (id : ℕ)
    → Swept db j after
    → Stopped db id
    → Stopped after id
unfolding Swept
Swept-Stopped db j after id (inl (e, f)) k = subst (λ d. Stopped d id) (sym e) k
Swept-Stopped db j after id (inr (row, e, f)) k =
    subst (λ d. Stopped d id) (sym f) (undo_fill-Stopped db row Note.order_cancelled id k)

sweep-Stopped :
    (jobs : List RelayJob) (w : Sweep) (id : ℕ) → Stopped w.db id → Stopped (sweep w jobs).db id
unfolding sweep
sweep-Stopped [] w id k = k
sweep-Stopped (j ∷ jobs) w id k =
    sweep-Stopped jobs (sweep_job w j) id
      (Swept-Stopped w.db j (sweep_job w j).db id (sweep_job-Swept w j) k)

sweep-Settled :
    (jobs : List RelayJob) (w : Sweep) (id : ℕ) → Settled w.db id → Settled (sweep w jobs).db id
unfolding sweep
sweep-Settled [] w id k = k
sweep-Settled (j ∷ jobs) w id k =
    sweep-Settled jobs (sweep_job w j) id
      (Swept-Settled w.db j (sweep_job w j).db id (sweep_job-Swept w j) k)

sweep_settles :
    (jobs : List RelayJob) (w : Sweep)
    → All (Known w.db) jobs
    → All (λ j. Settled (sweep w jobs).db j.id) jobs
unfolding sweep
sweep_settles [] w k = tt
sweep_settles (j ∷ jobs) w k =
    let s = sweep_job-Swept w j in
    let d = (sweep_job w j).db in
    (
      sweep-Settled jobs (sweep_job w j) j.id (Swept-settles w.db j d s k.0),
      sweep_settles jobs (sweep_job w j)
          (All-map (Known w.db) (Known d) jobs (λ x. Swept-keeps w.db j d x s) k.1),
    )

unexposed :
    (o : Order) (jobs : List RelayJob)
    → (exposed o jobs ≡ true)
      ⊎ ((any sent_once jobs ≡ false) × (o.filled ≤ sum_by unsent_fill jobs))
unfolding exposed
unexposed o jobs =
    elim (Bool-cases (ltb (sum_by unsent_fill jobs) o.filled || any sent_once jobs)) [
      | inl e ↦ inl e
      | inr e ↦ inr (ground (arith, e), ground (arith, e))
    ]

required :
    {P Q : Type 0} (b : Bool) (ids : List ℕ)
    → (b ≡ true) ⊎ (P × Q)
    → ((b || some_id ids) ≡ true) ⊎ (P × Q × (ids ≡ []))
required b ids (inl e) = inl (ground (arith, e))
required true ids (inr p) = inl refl
required false [] (inr p) = inr (p.0, p.1, refl)
required false (id ∷ ids) (inr p) = inl refl

-- What the route's answers say of the database.
abbrev pub Outcome : Db → ℕ → ℕ → Db × CancelAnswer → Type 0
Outcome db user h (after, CancelAnswer.not_found) =
    (after ≡ db) × (find order_hash_key h db.orders ≡ none)
Outcome db user h (after, CancelAnswer.not_maker) =
    (after ≡ db)
    × ((o : Order) × (find order_hash_key h db.orders ≡ some o) × ((o.maker == user) ≡ false))
Outcome db user h (after, CancelAnswer.done r) =
    (o : Order) × (find order_hash_key h db.orders ≡ some o)
    × ((o.maker == user) ≡ true)
    × Stopped after o.id
    × All (λ j. Settled after j.id) (jobs_of h db.jobs)
    × ((r.onchain_cancel_required ≡ true)
        ⊎ ((any sent_once (jobs_of h db.jobs) ≡ false)
            × (o.filled ≤ sum_by unsent_fill (jobs_of h db.jobs))
            × (r.in_flight_jobs ≡ [])))

-- With one row for each id: a call for an order that is not there, or of another maker, changes
-- nothing; any other leaves the order cancelled and none of its jobs pending, and answers that no
-- cancel on the chain is needed only if no job of the order was ever sent, its fills are those of
-- unsent jobs, and none is in flight.
pub cancel_lem :
    (db : Db) (user h : ℕ)
    → Keyed job_key db.jobs
    → Keyed order_key db.orders
    → Outcome db user h (cancel db user h)
unfolding cancel
cancel_lem db user h u v = go (find order_hash_key h db.orders) refl
  where
    go :
        (o : Option Order)
        → find order_hash_key h db.orders ≡ o
        → Outcome db user h (cancel_row db user h o)
    go none e = (refl, e)
    go (some o) e = elim (Bool-cases (o.maker == user)) [
      | inr f ↦ rw f (refl, (o, e, f))
      | inl f ↦
          let jobs = jobs_of h db.jobs in
          let w = begin_sweep db o in
          let row =
            find-All order_hash_key (λ r. find order_key r.id db.orders ≡ some r) h db.orders o
              (Keyed-found order_key db.orders v) e in
          let known =
            All-keep (λ j. find job_key j.id db.jobs ≡ some j) (is_of h) db.jobs
              (Keyed-found job_key db.jobs u) in
          let stopped : Stopped w.db o.id = (
            set_cancelled o,
            find-modify_self order_key o.id set_cancelled db.orders o (λ x. refl) row,
            refl,
          ) in
          rw f (
            o,
            e,
            f,
            sweep-Stopped jobs w o.id stopped,
            sweep_settles jobs w (
                All-map (λ j. find job_key j.id db.jobs ≡ some j) (Known w.db) jobs (λ j k. inl k)
                  known),
            required (exposed o jobs) (sweep w jobs).in_flight_jobs (unexposed o jobs),
          )
    ]
