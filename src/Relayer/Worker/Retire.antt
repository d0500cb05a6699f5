-- ===== src/Relayer/Worker/Retire.antt =====
-- What the worker does to the two orders of a job that failed (backend/app/relayer/worker.py):
-- `_retire_after_revert`, `_retire_failed_side`, `_culprits`, `_resync_filled`.
use over_under.Prelude.{
  ℕ, ◌+◌, Bool, true, false, not, ◌&&◌, ◌||◌, Option, none, some, List, [], ◌∷◌, ltb, ◌==◌,
  if◌then◌else◌, any, keep, sum_by,
}
use over_under.Prelude.Table.{find, modify}
use over_under.Db.{Db, Order, RelayJob, JobStatus, order_key}
use over_under.Orderbook.Rows.{set_filled, set_cancelled}
use over_under.Orderbook.Match.{try_match}
use over_under.Relayer.Preflight.{Role, Reason, preflight_match}
use over_under.Relayer.Worker.{Context, Chain, State, ok, rpc_error, settings_of}

-- `by_hash.get(h)`: the order with a hash.
unfoldable pub by_hash : ℕ → List Order → Option Order
by_hash h [] = none
by_hash h (o ∷ os) = if o.order_hash == h then some o else by_hash h os

-- A job whose fill the order holds or may hold.
abbrev pub is_live : JobStatus → Bool
is_live JobStatus.pending = true
is_live JobStatus.sending = true
is_live JobStatus.sent = true
is_live _ = false

abbrev pub live_fill : List RelayJob → ℕ → ℕ
live_fill jobs h =
    sum_by (λ j. j.fill_amount)
      (keep (λ j. is_live j.status && (j.taker_hash == h || j.maker_hash == h)) jobs)

-- `_resync_filled`: nothing changes if the chain does not answer.
unfoldable pub resync_filled : Chain → Db → Order → Db
resync_filled c db o = elim (c.ex_filled o.order_hash) [
  | rpc_error ↦ db
  | ok onchain ↦ record db {
    orders =
        modify order_key o.id (set_filled (onchain + live_fill db.jobs o.order_hash)) db.orders;
  }
]

-- `r == "<role> overfill"`
abbrev pub is_overfill : Role → Reason → Bool
is_overfill Role.taker (Reason.overfill Role.taker) = true
is_overfill Role.maker (Reason.overfill Role.maker) = true
is_overfill _ _ = false

abbrev pub is_resolved : Reason → Bool
is_resolved Reason.market_resolved = true
is_resolved _ = false

abbrev pub same_role : Role → Role → Bool
same_role Role.taker Role.taker = true
same_role Role.maker Role.maker = true
same_role _ _ = false

-- `r.startswith("<role> ") and r != "<role> overfill"`: a "busy: " reason begins otherwise.
abbrev pub blames : Role → Reason → Bool
blames role (Reason.expired r) = same_role role r
blames role (Reason.nonce_stale r) = same_role role r
blames role (Reason.cancelled_onchain r) = same_role role r
blames role (Reason.usdc_balance r) = same_role role r
blames role (Reason.usdc_allowance r) = same_role role r
blames role (Reason.ctf_balance r) = same_role role r
blames role (Reason.ctf_not_approved r) = same_role role r
blames role _ = false

-- `_culprits`: whether an order is one, by its role.
unfoldable pub is_culprit : Role → List Reason → Bool
is_culprit role reasons = any is_resolved reasons || any (blames role) reasons

abbrev cancel_if : Bool → Order → Db → Db
cancel_if true o db = record db { orders = modify order_key o.id set_cancelled db.orders }
cancel_if false o db = db

abbrev resync_if : Bool → Chain → Order → Db → Db
resync_if true c o db = resync_filled c db o
resync_if false c o db = db

-- An innocent taker with something left is matched again.
abbrev rematch_if : Bool → Context → Option Order → Db → Db
rematch_if false c o db = db
rematch_if true c none db = db
rematch_if true c (some taker) db =
    if not taker.cancelled && ltb taker.filled taker.amount
    then (try_match c.deployment c.now (record { db = db; others = c.others }) taker).world.db
    else db

-- `_retire_failed_side`, on the two orders as they were read.
unfoldable pub retire_failed_side : Context → Chain → Db → Order → Order → List Reason → Db
unfolding is_culprit resync_filled
retire_failed_side c chain db taker maker reasons =
    let db₁ = resync_if (any (is_overfill Role.taker) reasons) chain taker db in
    let db₂ = resync_if (any (is_overfill Role.maker) reasons) chain maker db₁ in
    let db₃ = cancel_if (is_culprit Role.taker reasons) taker db₂ in
    let db₄ = cancel_if (is_culprit Role.maker reasons) maker db₃ in
    rematch_if (is_culprit Role.maker reasons && not (is_culprit Role.taker reasons)) c
      (find order_key taker.id db₄.orders) db₄

-- The reasons of a fresh preflight, if the chain answers all that it reads.
abbrev retire_for : Context → Chain → Db → Order → Order → List Reason → Db
retire_for c chain db taker maker [] = db
retire_for c chain db taker maker (r ∷ rs) = retire_failed_side c chain db taker maker (r ∷ rs)

retire_pair : Context → Chain → State → Order → Order → Db
unfolding retire_failed_side
retire_pair c chain st taker maker =
    if taker.cancelled || maker.cancelled then st.db else elim chain.latest_block [
      | rpc_error ↦ st.db
      | ok block ↦ elim chain.ledger [
        | none ↦ st.db
        | some l ↦ retire_for c chain st.db taker maker (
            preflight_match l taker maker st.job.taker_hash st.job.maker_hash st.job.fill_amount
              block.timestamp (settings_of c) none)
      ]
    ]

-- `_retire_after_revert`
unfoldable pub retire_after_revert : Context → Chain → State → Db
unfolding by_hash retire_pair
retire_after_revert c chain st = elim (by_hash st.job.taker_hash st.db.orders) [
  | none ↦ st.db
  | some taker ↦ elim (by_hash st.job.maker_hash st.db.orders) [
    | none ↦ st.db
    | some maker ↦ retire_pair c chain st taker maker
  ]
]
