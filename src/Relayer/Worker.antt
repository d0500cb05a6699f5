-- ===== src/Relayer/Worker.antt =====
-- The worker's steps on one job (backend/app/relayer/worker.py): the state of a step, the chain's
-- answers, and the receipt and fill checks. Time, the node's answers and the signer are arguments;
-- the answers before and after a broadcast are two records. What is written to the job's object
-- stands in its row once it is put there.
pub mod Retire
pub mod Settle
pub mod Reconcile
pub mod Send
pub mod Moves
use over_under.Prelude.{
  ℕ, ◌+◌, ◌-◌, Bool, true, false, not, ◌&&◌, ◌||◌, Option, none, some, List, [], ◌∷◌, ◌++◌, map,
  ltb, leb, ◌==◌, if◌then◌else◌, any, keep, sum_by,
}
use over_under.Prelude.Table.{find, modify}
use over_under.Settings.{Settings, Deployment}
use over_under.Db.{Db, Order, Trade, TradeStatus, RelayJob, JobStatus, Note, job_key}
use over_under.Orderbook.Rows.{Write}
use over_under.Relayer.Gas.{FeeQuote}
use over_under.Relayer.Nonce.{Cache}
use over_under.Relayer.Preflight.{Ledger}
use over_under.Relayer.Queue.{links_to}

pub data Answer (A : Type 0) : Type 0 where
  ok : A → Answer A
  rpc_error : Answer A

pub record Log : Type 0 where
  pub address : ℕ
  pub topics : List ℕ
  pub transaction : ℕ
  pub block_number : ℕ

pub record Receipt : Type 0 where
  pub status : ℕ
  pub block_number : ℕ
  pub logs : Option (List Log)

pub record Block : Type 0 where
  pub number : ℕ
  pub timestamp : ℕ
  pub base_fee : Option ℕ

-- How a broadcast ends: the kinds of `classify_rpc_error`, or no error.
pub data Sent : Type 0 where
  accepted nonce_low known underpriced insufficient_funds revert transient : Sent

-- The node's answers at one time.
pub record Chain : Type 0 where
  pub get_receipt : ℕ → Answer (Option Receipt)
  pub latest_block : Answer Block
  pub latest_nonce : ℕ → Answer ℕ
  pub pending_nonce : Answer ℕ
  pub get_logs : ℕ → Answer (List Log)
  pub ex_filled : ℕ → Answer ℕ
  pub ledger : Option Ledger
  pub send_raw : ℕ → Sent

-- What the worker signs.
pub record Tx : Type 0 where
  pub chain_id : ℕ
  pub nonce : ℕ
  pub to : ℕ
  pub gas : ℕ
  pub quote : FeeQuote
  pub taker : Order
  pub maker : Order
  pub fill : ℕ

pub record Context : Type 0 where
  pub deployment : Deployment
  pub exchange : ℕ
  pub chain_id : ℕ
  pub sender : ℕ
  pub order_filled_topic : ℕ
  pub sign : Tx → ℕ × ℕ
  pub now : ℕ
  pub chain : Chain
  pub chain_after : Chain
  pub others : List (List (ℕ × Write))

pub record Stats : Type 0 where
  pub reconciled : ℕ
  pub sent : ℕ
  pub bumped : ℕ
  pub confirmed : ℕ
  pub failed : ℕ
  pub cancelled : ℕ
  pub deferred : ℕ

-- `committed` is what a rollback of the session returns to; `broadcast` lists the raw transactions
-- handed to the node, the latest first.
pub record State : Type 0 where
  pub db : Db
  pub job : RelayJob
  pub cache : Cache
  pub stats : Stats
  pub committed : Db
  pub broadcast : List ℕ

-- A step returns, or raises out to `_guard`.
pub data Run : Type 0 where
  done raised : State → Run

infixl 5 ◌>>=◌
abbrev pub ◌>>=◌ : Run → (State → Run) → Run
done st >>= f = f st
raised st >>= f = raised st

abbrev pub settings_of : Context → Settings
settings_of c = c.deployment.settings

-- The job's row is as the object.
abbrev pub put : State → Db
put st = record st.db { jobs = modify job_key st.job.id (λ r. st.job) st.db.jobs }

-- `await db.refresh(job)`
abbrev pub reloaded : RelayJob → Option RelayJob → RelayJob
reloaded j none = j
reloaded j (some r) = r

abbrev pub defer : State → State
defer st = record st { stats = record st.stats { deferred = st.stats.deferred + 1 } }

abbrev pub note : Note → State → State
note n st = record st { job = record st.job { last_error = n } }

-- `job.sent_at or now`: a stored 0 counts as missing.
abbrev pub or_now : Option ℕ → ℕ → Option ℕ
or_now none now = some now
or_now (some t) now = if t == 0 then some now else some t

-- `int(job.x or 0)`
abbrev pub or_zero : Option ℕ → ℕ
or_zero none = 0
or_zero (some t) = t

-- `dict.fromkeys`: the first of equal entries stays.
pub unique : List ℕ → List ℕ
unique [] = []
unique (h ∷ hs) = h ∷ keep (λ k. not (k == h)) (unique hs)

-- `_hashes`
unfoldable pub hashes_of : RelayJob → List ℕ
unfolding unique
hashes_of j = elim j.tx_hash [ none ↦ unique j.tx_hashes | some h ↦ unique (j.tx_hashes ++ h ∷ []) ]

-- `_find_receipt`: the first hash with a receipt; a lookup that fails first raises.
unfoldable pub find_receipt : Chain → List ℕ → Answer (Option (Receipt × ℕ))
find_receipt c [] = ok none
find_receipt c (h ∷ hs) =
    let rest = find_receipt c hs in
    elim (c.get_receipt h) [
      | rpc_error ↦ rpc_error
      | ok found ↦ elim found [ none ↦ rest | some r ↦ ok (some (r, h)) ]
    ]

-- `len(topics) >= 3`, and the event of this job's pair.
abbrev pub topics_match : ℕ → RelayJob → List ℕ → Bool
topics_match topic j (a ∷ b ∷ c ∷ rest) = a == topic && (b == j.taker_hash && c == j.maker_hash)
topics_match topic j _ = false

-- `_is_fill_log`
abbrev pub is_fill_log : Context → RelayJob → Log → Bool
is_fill_log c j lg = lg.address == c.exchange && topics_match c.order_filled_topic j lg.topics

-- `_has_fill_log`
unfoldable pub has_fill_log : Context → RelayJob → Receipt → Bool
has_fill_log c j r = elim r.logs [ none ↦ true | some logs ↦ any (is_fill_log c j) logs ]

abbrev pub mark_trade : ℕ → (Trade → Trade) → Trade → Trade
mark_trade id f t = if links_to id t.relay_job_id then f t else t

-- `_confirm`
unfoldable pub confirm : Context → State → ℕ → ℕ → State
confirm c st mined bn = record st {
  db = record st.db {
    trades =
        map
          (mark_trade st.job.id (λ t. record t {
            status = TradeStatus.confirmed;
            tx_hash = some mined;
            block_number = some bn;
          }))
          st.db.trades;
  };
  job = record st.job {
    status = JobStatus.confirmed;
    tx_hash = some mined;
    block_number = some bn;
    confirmed_at = some c.now;
    nonce_consumed_at = none;
    last_error = Note.empty;
  };
  stats = record st.stats { confirmed = st.stats.confirmed + 1 };
}

-- The verdict on a fill: landed in a transaction of ours, perhaps landed, or not.
pub data Verdict : Type 0 where
  landed : ℕ → ℕ → Verdict
  may_be absent : Verdict

-- The first of the logs that is this job's fill in one of its transactions.
unfoldable pub landed_in : Context → RelayJob → List ℕ → List Log → Option (ℕ × ℕ)
landed_in c j mine [] = none
landed_in c j mine (lg ∷ logs) =
    if any (λ h. h == lg.transaction) mine && is_fill_log c j lg
    then some (lg.transaction, lg.block_number)
    else landed_in c j mine logs

-- The fill that other confirmed jobs explain of an order.
abbrev pub explains : RelayJob → ℕ → RelayJob → Bool
explains j oh r =
    elim r.status [ JobStatus.confirmed ↦ true | _ ↦ false ]
    && (not (r.id == j.id) && (r.taker_hash == oh || r.maker_hash == oh))

abbrev pub accounted : List RelayJob → RelayJob → ℕ → ℕ
accounted jobs j oh = sum_by (λ r. r.fill_amount) (keep (explains j oh) jobs)

-- Both orders show this fill on chain beyond what is explained.
unfoldable pub unexplained : Chain → List RelayJob → RelayJob → List ℕ → Answer Verdict
unexplained c jobs j [] = ok may_be
unexplained c jobs j (oh ∷ hashes) =
    let rest = unexplained c jobs j hashes in
    elim (c.ex_filled oh) [
      | rpc_error ↦ rpc_error
      | ok onchain ↦ if ltb onchain (j.fill_amount + accounted jobs j oh) then ok absent else rest
    ]

-- `max(0, latest - lookback)` where no block is on record.
abbrev pub from_block : Context → RelayJob → Answer ℕ
from_block c j = elim j.first_sent_block [
  | some b ↦ ok b
  | none ↦ elim c.chain.latest_block [
    | rpc_error ↦ rpc_error
    | ok b ↦ ok (b.number - (settings_of c).relayer_log_lookback_blocks)
  ]
]

-- `_fill_verdict`
unfoldable pub fill_verdict : Context → State → Answer Verdict
unfolding landed_in unexplained hashes_of
fill_verdict c st = elim (from_block c st.job) [
  | rpc_error ↦ rpc_error
  | ok b ↦ elim (c.chain.get_logs b) [
    | rpc_error ↦ rpc_error
    | ok logs ↦ elim (landed_in c st.job (hashes_of st.job) logs) [
      | some (h, bn) ↦ ok (landed h bn)
      | none ↦ unexplained c.chain st.db.jobs st.job (st.job.taker_hash ∷ st.job.maker_hash ∷ [])
    ]
  ]
]
