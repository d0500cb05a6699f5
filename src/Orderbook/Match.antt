-- ===== src/Orderbook/Match.antt =====
-- `try_match` (backend/app/orderbook/matcher.py) and `enqueue_match` (backend/app/relayer/queue.py).
-- One reading of the clock stands for the readings within one call.
pub mod Loop
pub mod Bounds
pub mod Priority
pub mod Fills
pub mod Quiet
pub mod Complete
pub mod Uncrossed
use over_under.Prelude.{
  ℕ, ◌+◌, ◌*◌, ◌/◌, min, Bool, true, false, not, ◌&&◌, ◌||◌, Option, none, some, List, [], ◌∷◌,
  ◌++◌, suc, zero, ltb, leb, ◌==◌, if◌then◌else◌, keep,
}
use over_under.Settings.{Settings, Deployment, relayer_ready}
use over_under.Market.{HaltReason, trading_halt_reason}
use over_under.Db.{Db, Order, Trade, TradeStatus, RelayJob, JobStatus, Note}
use over_under.Orderbook.Rows.{remaining, crosses, World, take, give_back}

-- The sort key of the makers, `(price, id)` for a buy and `(-price, id)` for a sell.
abbrev pub before : Bool → Order → Order → Bool
before true a b = if a.price == b.price then leb a.id b.id else leb a.price b.price
before false a b = if a.price == b.price then leb a.id b.id else leb b.price a.price

unfoldable pub insert : Bool → Order → List Order → List Order
insert buy o [] = o ∷ []
insert buy o (x ∷ xs) = if before buy o x then o ∷ x ∷ xs else x ∷ insert buy o xs

-- `makers.sort(key=...)`: the ids differ, so the key decides the order.
unfoldable pub sort : Bool → List Order → List Order
unfolding insert
sort buy [] = []
sort buy (o ∷ os) = insert buy o (sort buy os)

-- The SELECT's conditions.
abbrev pub resting : Order → ℕ → Order → Bool
resting incoming min_expiry o =
    (o.condition_id == incoming.condition_id)
    && not o.cancelled
    && ltb min_expiry o.expiry
    && not (o.id == incoming.id)

abbrev pub can_make : Order → ℕ → Order → Bool
can_make incoming min_expiry o = crosses incoming o min_expiry && ltb 0 (remaining o)

unfoldable pub makers_of : Order → ℕ → List Order → List Order
unfolding sort
makers_of incoming min_expiry rows =
    sort incoming.is_buy
      (keep (can_make incoming min_expiry) (keep (resting incoming min_expiry) rows))

-- How the tries for one maker end: a fill of `qty`, `qty = 0`, or `return fills` on an incoming order
-- that was cancelled meanwhile.
pub data Try : Type 0 where
  filled : ℕ → Order → World → Try
  nothing : Order → World → Try
  stopped : Order → World → Try

-- The body of `for _ in range(2)`.
unfoldable pub attempt : ℕ → World → Order → Order → Try
attempt zero w incoming maker = nothing incoming w
attempt (suc n) w incoming maker =
    let qty = min (remaining incoming) (remaining maker) in
    let (took, maker', w₁) = take w maker qty in
    let (done, incoming', w₂) = take w₁ incoming qty in
    let (maker'', w₃) = give_back w₂ maker' qty in
    let again = attempt n w₁ incoming maker' in
    let after_give_back = attempt n w₃ incoming' maker'' in
    if leb qty 0 || maker.cancelled
    then nothing incoming w
    else if not took
    then again
    else if done
    then filled qty incoming' w₂
    else if incoming'.cancelled
    then stopped incoming' w₃
    else after_give_back

pub record Fill : Type 0 where
  pub maker_hash : ℕ
  pub taker_hash : ℕ
  pub fill_amount : ℕ
  pub volume : ℕ
  pub fee : ℕ
  pub status : TradeStatus
  pub relay_job_id : Option ℕ

pub record Matching : Type 0 where
  pub world : World
  pub incoming : Order
  pub fills : List Fill

-- `enqueue_match`: always a new job.
unfoldable pub enqueue_match : Db → Order → Order → ℕ → ℕ → RelayJob × Db
enqueue_match db taker maker fill now =
    (job, record db { jobs = db.jobs ++ job ∷ []; next_job = db.next_job + 1 })
  where
    job : RelayJob
    job = record {
      id = db.next_job;
      condition_id = taker.condition_id;
      taker_hash = taker.order_hash;
      maker_hash = maker.order_hash;
      fill_amount = fill;
      sender = 0;
      status = JobStatus.pending;
      attempts = 0;
      nonce = none;
      tx_hash = none;
      tx_hashes = [];
      raw_tx = none;
      gas_limit = none;
      max_fee_per_gas = none;
      max_priority_fee_per_gas = none;
      block_number = none;
      last_error = Note.empty;
      next_attempt_at = 0;
      sent_at = none;
      confirmed_at = none;
      matched_at = now;
      first_sent_block = none;
      nonce_consumed_at = none;
    }

abbrev pub volume_of : ℕ → ℕ → ℕ
volume_of qty price = qty * price / 1_000_000

abbrev pub fee_of : ℕ → ℕ → ℕ
fee_of volume bps = volume * bps / 10_000

abbrev add_trade : Db → Order → Order → ℕ → Settings → TradeStatus → Option ℕ → Db
add_trade db incoming maker qty s status job = record db {
  trades = db.trades ++ trade ∷ [];
  next_trade = db.next_trade + 1;
}
  where
    trade : Trade
    trade = record {
      id = db.next_trade;
      condition_id = incoming.condition_id;
      taker = incoming.maker;
      maker = maker.maker;
      fill_amount = qty;
      volume = volume_of qty maker.price;
      fee = fee_of (volume_of qty maker.price) s.fee_bps_taker;
      tx_hash = none;
      status = status;
      relay_job_id = job;
      block_number = none;
    }

abbrev fill_of : Order → Order → ℕ → Settings → TradeStatus → Option ℕ → Fill
fill_of incoming maker qty s status job = record {
  maker_hash = maker.order_hash;
  taker_hash = incoming.order_hash;
  fill_amount = qty;
  volume = volume_of qty maker.price;
  fee = fee_of (volume_of qty maker.price) s.fee_bps_taker;
  status = status;
  relay_job_id = job;
}

-- A fill is recorded: its job, if the relayer is ready, its trade, and the entry that is returned.
unfoldable pub record_fill : Settings → Bool → ℕ → Matching → Order → ℕ → World → Order → Matching
unfolding enqueue_match
record_fill s relay now m maker qty w incoming = elim relay [
  | true ↦
      let (job, db) = enqueue_match w.db incoming maker qty now in
      record {
        world = record w {
          db = add_trade db incoming maker qty s TradeStatus.pending (some job.id);
        };
        incoming = incoming;
        fills = m.fills ++ fill_of incoming maker qty s TradeStatus.pending (some job.id) ∷ [];
      }
  | false ↦ record {
    world = record w { db = add_trade w.db incoming maker qty s TradeStatus.offchain none };
    incoming = incoming;
    fills = m.fills ++ fill_of incoming maker qty s TradeStatus.offchain none ∷ [];
  }
]

-- The rest of the loop's body, after the tries; `on` is the loop over the makers that are left.
unfoldable pub after_try :
    Settings → Bool → ℕ → (Matching → Matching) → Matching → Order → Try → Matching
after_try s relay now on m maker (stopped incoming w) = record m { world = w; incoming = incoming }
after_try s relay now on m maker (nothing incoming w) =
    let m' : Matching = record m { world = w; incoming = incoming } in
    if incoming.cancelled || leb (remaining incoming) 0 then m' else on m'
after_try s relay now on m maker (filled qty incoming w) =
    let m' = record_fill s relay now m maker qty w incoming in
    if leb (remaining incoming) 0 then m' else on m'

-- `for maker in makers`
unfoldable pub match_makers : Settings → Bool → ℕ → List Order → Matching → Matching
unfolding after_try
match_makers s relay now [] m = m
match_makers s relay now (maker ∷ rest) m =
    after_try s relay now (match_makers s relay now rest) m maker
      (attempt 2 m.world m.incoming maker)

-- `if await trading_halt_reason(...): return []`
abbrev pub unless_halted : Option HaltReason → Matching → Matching → Matching
unless_halted (some _) idle run = idle
unless_halted none idle run = run

unfoldable pub try_match : Deployment → ℕ → World → Order → Matching
unfolding makers_of match_makers
try_match d now w incoming =
    let s = d.settings in
    let idle : Matching = record { world = w; incoming = incoming; fills = [] } in
    let makers = makers_of incoming (now + s.relayer_min_expiry_seconds) w.db.orders in
    unless_halted (trading_halt_reason w.db.markets w.db.listings incoming.condition_id s now) idle
      (match_makers s (relayer_ready d) now makers idle)
