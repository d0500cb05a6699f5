-- ===== src/Tests/Relaying.antt =====
-- The relayer's theorems at concrete jobs, fees and chains.
use over_under.Prelude.{
  ◌+◌, ◌*◌, ◌≤◌, ◌<◌, ◌≡◌, ◌⊎◌, ◌≢◌, inl, refl, true, false, none, some, List, [], ◌∷◌, arith, max,
}
use over_under.Prelude.Table.{find}
use over_under.Settings.{default_settings}
use over_under.Db.{JobStatus, Note, order_key}
use over_under.Relayer.Gas.{FeeQuote, quote_fees, bump_fees, bump_dynamic, gas_limit}
use over_under.Relayer.Gas.Bounds.{
  IsQuote, quote_fees-IsQuote, quote_fees-covers, bump_fees-grows, gas_limit_bounds,
}
use over_under.Relayer.Nonce.{
  Event, looks, sends, pays, resyncs, hands_back, invalidates, Nonces, reserve, release, run,
}
use over_under.Relayer.Nonce.Held.{run-Distinct, reserve-release}
use over_under.Relayer.Nonce.Held.Guards.{Distinct}
use over_under.Relayer.Queue.{rollback_job}
use over_under.Relayer.Queue.Rollback.{rollback_job_once, rollback_job_restores}
use over_under.Relayer.Worker.{accepted, ok, Chain, Context, State}
use over_under.Relayer.Worker.Reconcile.{reconcile}
use over_under.Relayer.Worker.Moves.{Because, Post}
use over_under.Relayer.Worker.Moves.Pass.{reconcile-Because}
use over_under.Db.{RelayJob}
use over_under.Relayer.Worker.{
  rpc_error, fill_verdict, landed_in, unexplained, hashes_of, absent, may_be,
}
use over_under.Relayer.Worker.Send.{Offer, estimated}
use over_under.Relayer.Worker.Send.Prepare.{send}
use over_under.Relayer.Worker.Send.Silent.{state_of}
use over_under.Relayer.Worker.Send.Ahead.{Recorded, send-Recorded, send_unsent}
use over_under.Tests.Data.{deployment, bid, matched_book, job, ledger}

abbrev quote : FeeQuote
quote = record { max_fee = 3_000_000; tip = 1_000_000; legacy_gas_price = none }

quoted : quote_fees (some 1_000_000) 500 none default_settings ≡ some quote
unfolding quote_fees
quoted = refl

quote_fees-IsQuote_example : IsQuote quote × (3_000_000 ≤ 5_000_000_000)
quote_fees-IsQuote_example =
    quote_fees-IsQuote (some 1_000_000) 500 none default_settings quote quoted

quote_fees-covers_example :
    ((quote_fees (some 1_000_000) 500 none default_settings ≡ none)
      × (5_000_000_000 < 1_000_000 + max 500 1_000_000))
    ⊎ ((q : FeeQuote) × (quote_fees (some 1_000_000) 500 none default_settings ≡ some q)
        × (q.tip ≡ max 500 1_000_000)
        × (1_000_000 + q.tip ≤ q.max_fee))
quote_fees-covers_example = quote_fees-covers 1_000_000 500 none default_settings

abbrev bumped : FeeQuote
bumped = record { max_fee = 3_375_000; tip = 1_125_000; legacy_gas_price = none }

bumps : bump_fees quote default_settings (some 1_000_000) ≡ some bumped
unfolding bump_fees bump_dynamic
bumps = refl

quote-IsQuote : IsQuote quote
quote-IsQuote = record { tip_within = omega arith; legacy = inl refl }

bump_fees-grows_example :
    (11 * 3_000_000 ≤ 10 * 3_375_000)
    × (11 * 1_000_000 ≤ 10 * 1_125_000)
    × (3_375_000 ≤ 5_000_000_000)
    × IsQuote bumped
bump_fees-grows_example =
    bump_fees-grows quote default_settings (some 1_000_000) bumped quote-IsQuote bumps

buffered : gas_limit 150_000 default_settings ≡ some 180_000
unfolding gas_limit
buffered = refl

gas_limit_bounds_example : (0 < 150_000) × (150_000 ≤ 180_000) × (180_000 ≤ 600_000)
gas_limit_bounds_example = gas_limit_bounds 150_000 default_settings 180_000 buffered

-- A send with a payment between its look-up and its reservation, a resync with a node that lags, a
-- payment behind it, a nonce that is handed back, and a second send.
abbrev events : List Event
events =
    looks
    ∷ pays 5
    ∷ sends 5
    ∷ resyncs 5
    ∷ pays 5
    ∷ hands_back 7
    ∷ invalidates
    ∷ looks
    ∷ sends 4
    ∷ []

abbrev no_nonces : Nonces
no_nonces = record { cache = none; held = []; floor = none }

run-Distinct_example : Distinct (run no_nonces events).held
run-Distinct_example = run-Distinct no_nonces events tt refl refl

sent_nonces : (run no_nonces events).held ≡ 7 ∷ 6 ∷ 5 ∷ []
unfolding run
sent_nonces = refl

-- A payment and a resync with a lagging node, both between the worker's look-up and its reservation.
reissued_nonce : (run no_nonces (looks ∷ pays 5 ∷ resyncs 5 ∷ sends 5 ∷ [])).held ≡ 5 ∷ 5 ∷ []
unfolding run
reissued_nonce = refl

reserve-release_example :
    let (n, after) = reserve (some 4) 9 (some 6) in (reserve (release after n) 12 (some 6)).0 ≡ n
reserve-release_example = reserve-release (some 4) 9 12 (some 6)

rolled :
    (rollback_job matched_book 4 JobStatus.sent JobStatus.failed Note.receipt_reverted).0 ≡ true
unfolding rollback_job
rolled = refl

rollback_job_once_example :
    rollback_job
      (rollback_job matched_book 4 JobStatus.sent JobStatus.failed Note.receipt_reverted).1
      4
      JobStatus.sent
      JobStatus.failed
      Note.gave_up
    ≡ (false, (rollback_job matched_book 4 JobStatus.sent JobStatus.failed Note.receipt_reverted).1)
rollback_job_once_example =
    rollback_job_once matched_book 4 JobStatus.sent JobStatus.failed Note.receipt_reverted
      JobStatus.sent JobStatus.failed Note.gave_up refl rolled

rollback_job_restores_example :
    find order_key 1
      (rollback_job matched_book 4 JobStatus.sent JobStatus.failed Note.receipt_reverted).1.orders
    ≡ some bid
rollback_job_restores_example =
    rollback_job_restores matched_book job 4 JobStatus.failed Note.receipt_reverted bid refl refl
      (inl refl) refl

-- The job's transaction 900 is mined in block 20 and shows the fill.
abbrev chain : Chain
chain = record {
  get_receipt = λ h. ok (
      some (record {
        status = 1;
        block_number = 20;
        logs = some (
            record {
              address = 500;
              topics = 7 ∷ 101 ∷ 102 ∷ [];
              transaction = 900;
              block_number = 20;
            }
            ∷ []);
      }));
  latest_block = ok (record { number = 21; timestamp = 150; base_fee = some 1_000_000 });
  latest_nonce = λ a. ok 4;
  pending_nonce = ok 4;
  get_logs = λ b. ok [];
  ex_filled = λ h. ok 5;
  ledger = some ledger;
  send_raw = λ raw. accepted;
}

abbrev context : Context
context = record {
  deployment = deployment;
  exchange = 500;
  chain_id = 8453;
  sender = 77;
  order_filled_topic = 7;
  sign = λ tx. (tx.nonce, tx.nonce);
  now = 150;
  chain = chain;
  chain_after = chain;
  others = [];
}

abbrev state : State
state = record {
  db = matched_book;
  job = job;
  cache = some 4;
  stats = record {
    reconciled = 0;
    sent = 0;
    bumped = 0;
    confirmed = 0;
    failed = 0;
    cancelled = 0;
    deferred = 0;
  };
  committed = matched_book;
  broadcast = [];
}

reconcile-Because_example : Post (Because context state) (reconcile context state)
reconcile-Because_example = reconcile-Because context state job refl refl

-- The job before its first transaction, and behind one whose nonce went elsewhere.
abbrev fresh_job : RelayJob
fresh_job = record job {
  status = JobStatus.pending;
  attempts = 0;
  nonce = none;
  tx_hash = none;
  tx_hashes = [];
  raw_tx = none;
  gas_limit = none;
}

abbrev returned_job : RelayJob
returned_job = record job { status = JobStatus.pending; nonce = none; raw_tx = none }

abbrev offer : Offer
offer = record {
  estimate = estimated 150_000;
  tip = 500;
  gas_price = rpc_error;
  balance = ok 1_000_000_000_000;
  pending = ok 4;
  distributions = [];
}

abbrev fresh_state : State
fresh_state = record state { db = record matched_book { jobs = fresh_job ∷ [] }; job = fresh_job }

abbrev returned_state : State
returned_state = record state {
  db = record matched_book { jobs = returned_job ∷ [] };
  job = returned_job;
}

send-Recorded_example : Recorded context fresh_state (state_of (send context offer fresh_state))
send-Recorded_example = send-Recorded context offer fresh_state

-- Both orders show the five shares on chain.
perhaps : fill_verdict context returned_state ≡ ok may_be
unfolding fill_verdict landed_in unexplained hashes_of
perhaps = refl

not_absent : fill_verdict context returned_state ≢ ok absent
not_absent e = ground (arith, perhaps)

send_unsent_example :
    ((state_of (send context offer returned_state)).broadcast ≡ [])
    × ((state_of (send context offer returned_state)).db.orders ≡ matched_book.orders)
send_unsent_example = send_unsent context offer returned_state refl not_absent
