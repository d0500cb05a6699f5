-- ===== src/Tests/Exchanging.antt =====
-- A match whose preflight is clean, at the contract.
use over_under.Prelude.{
  ℕ, ◌+◌, ◌-◌, ◌*◌, ◌≤◌, ◌≡◌, refl, true, none, List, [], ◌∷◌, arith, leb, sum_by,
}
use over_under.Settings.{default_settings}
use over_under.Db.{Order}
use over_under.Orderbook.Rows.{crosses}
use over_under.Orders.Signing.{order_digest}
use over_under.Relayer.Preflight.{preflight_match, order_state, funds_state}
use over_under.Relayer.Preflight.Exchange.{Exchange, Usdc, recover_signer, match_orders}
use over_under.Relayer.Preflight.Accepts.{IsStored, preflight_match-accepts}
use over_under.Tests.Data.{bid, ask, ledger}

abbrev mixed : List ℕ → ℕ
mixed [] = 7
mixed (c ∷ t) = c + 31 * mixed t

-- Signatures that end in 1 are account 11's, those that end in 2 are account 12's.
abbrev exchange : Exchange
exchange = record {
  crypto = record {
    keccak_text = mixed;
    keccak_words = mixed;
    keccak_1901 = λ a b. a + 31 * b;
    recover = λ digest v r s. none;
    domain_typehash = 1;
    order_typehash = 2;
    name_hash = 3;
    version_hash = 4;
  };
  domain = record { exchange = 500; chain_id = 8453 };
  ecrecover = λ digest v r s. v - 17;
}

covered : (a b c : ℕ) → a ≤ c → c ≤ b → leb a b ≡ true
covered a b c h k = ground arith

abbrev usdc : Usdc ledger
usdc = record {
  pays = λ payer amounts. leb (sum_by (λ a. a) amounts) 1_000_000;
  pays_covered =
      λ payer amounts b a. covered (sum_by (λ x. x) amounts) 1_000_000 1_000_000 b (omega arith);
}

-- The orders of the book under their own hashes.
abbrev hashed : Order → Order
hashed o = record o { order_hash = order_digest exchange.crypto o exchange.domain }

crossing : crosses (hashed bid) (hashed ask) 160 ≡ true
unfolding crosses
crossing = refl

clean :
    preflight_match ledger
      (hashed bid)
      (hashed ask)
      (hashed bid).order_hash
      (hashed ask).order_hash
      5
      200
      default_settings
      none
    ≡ []
unfolding preflight_match order_state funds_state
clean = refl

bid_signer : recover_signer exchange (hashed bid).order_hash 1 ≡ 11
unfolding recover_signer
bid_signer = refl

ask_signer : recover_signer exchange (hashed ask).order_hash 2 ≡ 12
unfolding recover_signer
ask_signer = refl

bid-IsStored : IsStored exchange (hashed bid)
unfolding order_digest
bid-IsStored = record {
  has_maker = omega arith;
  outcome_bound = omega arith;
  amount_pos = omega arith;
  amount_bound = omega arith;
  price_pos = omega arith;
  price_bound = omega arith;
  hash_is = refl;
  signature_ok = bid_signer;
}

ask-IsStored : IsStored exchange (hashed ask)
unfolding order_digest
ask-IsStored = record {
  has_maker = omega arith;
  outcome_bound = omega arith;
  amount_pos = omega arith;
  amount_bound = omega arith;
  price_pos = omega arith;
  price_bound = omega arith;
  hash_is = refl;
  signature_ok = ask_signer;
}

preflight_match-accepts_example :
    match_orders exchange ledger usdc 260 (hashed bid) (hashed ask) 5 ≡ true
preflight_match-accepts_example =
    preflight_match-accepts exchange ledger usdc (hashed bid) (hashed ask) 5 160 200 260
      default_settings none crossing bid-IsStored ask-IsStored (omega arith) clean (omega arith)
      (omega arith)
