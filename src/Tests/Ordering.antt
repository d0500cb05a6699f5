-- ===== src/Tests/Ordering.antt =====
-- An order that is posted, matched and cancelled.
use over_under.Prelude.{
  ℕ, ◌+◌, ◌*◌, ◌≡◌, refl, true, false, none, some, List, [], ◌∷◌, pos, negsuc, zero, suc, Bool,
}
use over_under.Settings.{Deployment, Domain, default_settings}
use over_under.Db.{Db, RelayJob, JobStatus}
use over_under.Orders.Signing.{Crypto, order_digest}
use over_under.Orders.Post.{OrderIn, Posted, Refusal, post_order, order_of}
use over_under.Orders.Posting.{Ends, post_order_lem}
use over_under.Orders.Cancel.{cancel, CancelAnswer}
use over_under.Orders.Cancelling.{Outcome, cancel_lem}
use over_under.Tests.Data.{deployment, quiet_world, matched_book, job}

abbrev add_up : List ℕ → ℕ
add_up [] = 7
add_up (c ∷ t) = c + 31 * add_up t

-- Every signature recovers to account 13.
abbrev crypto : Crypto
crypto = record {
  keccak_text = add_up;
  keccak_words = add_up;
  keccak_1901 = λ a b. a + 31 * b;
  recover = λ digest v r s. some 13;
  domain_typehash = 1;
  order_typehash = 2;
  name_hash = 3;
  version_hash = 4;
}

abbrev zeros : ℕ → List ℕ
zeros zero = []
zeros (suc n) = 0 ∷ zeros n

abbrev body : OrderIn
body = record {
  maker = some 13;
  is_buy = true;
  condition_id = some 9;
  outcome = pos 0;
  price = pos 550_000;
  amount = pos 3;
  salt = some (pos 4);
  nonce = pos 0;
  expiry = pos 900;
  signature = some (zeros 65);
  order_hash = none;
}

abbrev domain : Domain
domain = record { exchange = 500; chain_id = 8453 }

-- What the client sends: the body with the hash of its fields.
abbrev client_body : OrderIn
client_body = record body { order_hash = some (order_digest crypto (order_of body 3 0) domain) }

abbrev no_preflight : Deployment
no_preflight = record deployment {
  settings = record default_settings { relayer_preflight_on_post = false };
}

abbrev is_stored : Posted → Bool
is_stored (Posted.refused why) = false
is_stored (Posted.stored o fills) = true

stored_now :
    is_stored (post_order crypto no_preflight quiet_world none 100 3 false 13 client_body).1 ≡ true
unfolding post_order
stored_now = refl

post_order_lem_example :
    Ends crypto no_preflight quiet_world none 100 3 false 13 client_body
      (post_order crypto no_preflight quiet_world none 100 3 false 13 client_body)
post_order_lem_example =
    post_order_lem crypto no_preflight quiet_world none 100 3 false 13 client_body

refused_now :
    post_order crypto no_preflight quiet_world none 100 3 false 13
      (record client_body { price = negsuc 0 })
    ≡ (quiet_world, Posted.refused Refusal.bad_price)
unfolding post_order
refused_now = refl

-- The book with one match in flight and one that waits.
abbrev waiting_job : RelayJob
waiting_job = record job { id = 5; fill_amount = 2; status = JobStatus.pending; tx_hashes = [] }

abbrev two_jobs : Db
two_jobs = record matched_book { jobs = job ∷ waiting_job ∷ [] }

cancel_lem_example : Outcome two_jobs 11 101 (cancel two_jobs 11 101)
cancel_lem_example = cancel_lem two_jobs 11 101 (refl, (refl, tt)) (refl, (refl, tt))

cancelled_now :
    (cancel two_jobs 11 101).1
    ≡ CancelAnswer.done (record {
      cancelled_jobs = 5 ∷ [];
      in_flight_jobs = 4 ∷ [];
      onchain_cancel_required = true;
    })
unfolding cancel
cancelled_now = refl
