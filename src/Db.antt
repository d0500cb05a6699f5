-- ===== src/Db.antt =====
-- The rows that the order book and the relayer share (backend/app/models.py), and the database.
-- Hashes, addresses, condition ids, salts and signatures are the numbers that the hex texts spell.
use over_under.Prelude.{ℕ, Bool, true, false, Option, List}
use over_under.Market.{Market, Listing}

pub record Order : Type 0 where
  pub id : ℕ
  pub order_hash : ℕ
  pub maker : ℕ
  pub condition_id : ℕ
  pub is_buy : Bool
  pub outcome : ℕ
  pub price : ℕ
  pub amount : ℕ
  pub filled : ℕ
  pub salt : ℕ
  pub nonce : ℕ
  pub expiry : ℕ
  pub signature : ℕ
  pub cancelled : Bool

pub data TradeStatus : Type 0 where
  offchain pending confirmed failed : TradeStatus

pub record Trade : Type 0 where
  pub id : ℕ
  pub condition_id : ℕ
  pub taker : ℕ
  pub maker : ℕ
  pub fill_amount : ℕ
  pub volume : ℕ
  pub fee : ℕ
  pub tx_hash : Option ℕ
  pub status : TradeStatus
  pub relay_job_id : Option ℕ
  pub block_number : Option ℕ

pub data JobStatus : Type 0 where
  pending sending sent confirmed failed cancelled : JobStatus

-- What `last_error` says: the messages that the code writes, each by its own wording, without the
-- RPC texts that some of them quote.
pub data Note : Type 0 where
  empty order_cancelled receipt_lookup nonce_check fill_check bump_rpc bump_broadcast : Note
  nonce_consumed_awaiting consumed_by_other resynced_nonce balance_low fee_above_cap : Note
  bump_underpriced rebroadcast_failed broadcast_failed waits_in_flight : Note
  stuck_max_attempts stuck_rebroadcast stuck_may_have_landed stuck_not_resending : Note
  stuck_cannot_rebuild stuck_fee_cap : Note
  transient gave_up : Note
  missing_or_cancelled market_closed preflight_failed estimate_reverted gas_above_cap : Note
  receipt_reverted receipt_without_fill : Note

-- `last_error.startswith("stuck")`
abbrev pub is_stuck : Note → Bool
is_stuck Note.stuck_max_attempts = true
is_stuck Note.stuck_rebroadcast = true
is_stuck Note.stuck_may_have_landed = true
is_stuck Note.stuck_not_resending = true
is_stuck Note.stuck_cannot_rebuild = true
is_stuck Note.stuck_fee_cap = true
is_stuck _ = false

-- The empty text of `tx_hash` and `raw_tx` is `none`; the sender's is 0.
pub record RelayJob : Type 0 where
  pub id : ℕ
  pub condition_id : ℕ
  pub taker_hash : ℕ
  pub maker_hash : ℕ
  pub fill_amount : ℕ
  pub sender : ℕ
  pub status : JobStatus
  pub attempts : ℕ
  pub nonce : Option ℕ
  pub tx_hash : Option ℕ
  pub tx_hashes : List ℕ
  pub raw_tx : Option ℕ
  pub gas_limit : Option ℕ
  pub max_fee_per_gas : Option ℕ
  pub max_priority_fee_per_gas : Option ℕ
  pub block_number : Option ℕ
  pub last_error : Note
  pub next_attempt_at : ℕ
  pub sent_at : Option ℕ
  pub confirmed_at : Option ℕ
  pub matched_at : ℕ
  pub first_sent_block : Option ℕ
  pub nonce_consumed_at : Option ℕ

-- Rows in the order of their ids; the sequences give the next ids.
pub record Db : Type 0 where
  pub markets : List Market
  pub listings : List Listing
  pub orders : List Order
  pub trades : List Trade
  pub jobs : List RelayJob
  pub next_trade : ℕ
  pub next_job : ℕ

abbrev pub order_key : Order → ℕ
order_key o = o.id

abbrev pub job_key : RelayJob → ℕ
job_key j = j.id
