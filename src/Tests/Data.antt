-- ===== src/Tests/Data.antt =====
-- A small order book and a deployment.
use over_under.Prelude.{true, false, none, some, [], ◌∷◌}
use over_under.Settings.{Deployment, default_settings}
use over_under.Market.{Market, Listing, ListingStatus}
use over_under.Db.{Order, RelayJob, JobStatus, Note, Db}
use over_under.Orderbook.Rows.{World, Write}
use over_under.Relayer.Preflight.{Ledger}

abbrev pub deployment : Deployment
deployment = record {
  settings = default_settings;
  account = some 77;
  domain = some (record { exchange = 500; chain_id = 8453 });
}

abbrev pub market : Market
market = record {
  condition_id = 9;
  parent_condition_id = none;
  question = [];
  resolution_criteria = [];
  market_type = 1;
  close_time = 2000;
  paused = false;
  resolved = false;
}

abbrev pub listing : Listing
listing = record {
  condition_id = 9;
  creator = 12;
  salt = some 1;
  question = [];
  resolution_criteria = [];
  criteria_hash = none;
  close_time = 2000;
  seed_usdc = 100;
  status = ListingStatus.confirmed;
  reject_reason = none;
  created_at = 0;
}

-- Ten shares bid at 0.60 by account 11, and five offered at 0.50 by account 12.
abbrev pub bid : Order
bid = record {
  id = 1;
  order_hash = 101;
  maker = 11;
  condition_id = 9;
  is_buy = true;
  outcome = 0;
  price = 600_000;
  amount = 10;
  filled = 0;
  salt = 1;
  nonce = 0;
  expiry = 1000;
  signature = 1;
  cancelled = false;
}

abbrev pub ask : Order
ask = record {
  id = 2;
  order_hash = 102;
  maker = 12;
  condition_id = 9;
  is_buy = false;
  outcome = 0;
  price = 500_000;
  amount = 5;
  filled = 0;
  salt = 2;
  nonce = 0;
  expiry = 1000;
  signature = 2;
  cancelled = false;
}

abbrev pub book : Db
book = record {
  markets = market ∷ [];
  listings = [];
  orders = ask ∷ bid ∷ [];
  trades = [];
  jobs = [];
  next_trade = 1;
  next_job = 1;
}

abbrev pub quiet_world : World
quiet_world = record { db = book; others = [] }

-- Another session fills two of the ask before the first statement of a match.
abbrev pub busy_world : World
busy_world = record { db = book; others = ((2, Write.takes 2) ∷ []) ∷ [] }

abbrev pub job : RelayJob
job = record {
  id = 4;
  condition_id = 9;
  taker_hash = 101;
  maker_hash = 102;
  fill_amount = 5;
  sender = 77;
  status = JobStatus.sent;
  attempts = 1;
  nonce = some 3;
  tx_hash = some 900;
  tx_hashes = 900 ∷ [];
  raw_tx = some 899;
  gas_limit = some 200_000;
  max_fee_per_gas = some 3_000_000;
  max_priority_fee_per_gas = some 1_000_000;
  block_number = none;
  last_error = Note.empty;
  next_attempt_at = 0;
  sent_at = some 100;
  confirmed_at = none;
  matched_at = 90;
  first_sent_block = some 10;
  nonce_consumed_at = none;
}

-- The book behind the match of five shares, with its job.
abbrev pub matched_book : Db
matched_book = record book {
  orders = record ask { filled = 5 } ∷ record bid { filled = 5 } ∷ [];
  jobs = job ∷ [];
  next_job = 5;
}

-- Everyone holds a million of each token, approved.
abbrev pub ledger : Ledger
ledger = record {
  ctf_resolved = λ cid. false;
  ex_nonce = λ a. 0;
  ex_cancelled = λ h. false;
  ex_filled = λ h. 0;
  usdc_balance = λ a. 1_000_000;
  usdc_allowance = λ a. 1_000_000;
  ctf_balance = λ a cid o. 1_000_000;
  ctf_approved = λ a. true;
}
