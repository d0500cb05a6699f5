-- ===== src/Orders/Post.antt =====
-- POST /orders (backend/app/orderbook/router.py). One reading of the clock stands for the readings within
-- one call; the new row's id is the one that the sequence gives. `raced` says that another session has
-- inserted the same hash since the duplicate test, so that the unique column fails the insert.
use over_under.Prelude.{
  ℕ, ◌+◌, ◌^◌, Bool, true, false, not, ◌&&◌, Option, none, some, List, [], ◌∷◌, ◌++◌, ltb, ◌==◌,
  if◌then◌else◌, keep, length, sum_by, ℤ, between, natural,
}
use over_under.Prelude.Table.{find}
use over_under.Settings.{Settings, Deployment, Domain, relayer_ready}
use over_under.Market.{HaltReason, trading_halt_reason}
use over_under.Db.{Db, Order}
use over_under.Orderbook.Rows.{World, remaining}
use over_under.Orderbook.Match.{Fill, Matching, try_match}
use over_under.Relayer.Preflight.{
  Ledger, OrderReason, preflight_order, order_usdc_need, exchange_taker_fee_bps,
}
use over_under.Orders.Signing.{Crypto, order_digest, verify_order_signature, from_bytes}

-- Hex fields are the numbers they spell, `none` where the text is malformed; so is a salt that is no
-- number. The maker equals the session's address, which is well formed.
pub record OrderIn : Type 0 where
  pub maker : Option ℕ
  pub is_buy : Bool
  pub condition_id : Option ℕ
  pub outcome : ℤ
  pub price : ℤ
  pub amount : ℤ
  pub salt : Option ℤ
  pub nonce : ℤ
  pub expiry : ℤ
  pub signature : Option (List ℕ)
  pub order_hash : Option ℕ

pub data Refusal : Type 0 where
  maker_mismatch bad_maker bad_condition bad_hash bad_outcome bad_price bad_amount : Refusal
  bad_nonce bad_expiry bad_salt : Refusal
  halted : HaltReason → Refusal
  exchange_missing hash_mismatch bad_signature order_expired duplicate : Refusal
  relayer_misconfigured too_many_open chain_unavailable : Refusal
  preflight_failed : List OrderReason → Refusal

pub data Posted : Type 0 where
  refused : Refusal → Posted
  stored : Order → List Fill → Posted

abbrev pub order_hash_key : Order → ℕ
order_hash_key o = o.order_hash

abbrev pub is_number : Option ℕ → Bool
is_number none = false
is_number (some n) = true

abbrev pub number : Option ℕ → ℕ
number none = 0
number (some n) = n

-- `u256`
unfoldable pub u256 : Option ℤ → Bool
u256 none = false
u256 (some z) = between 0 (2 ^ 256) z

abbrev pub salt_of : Option ℤ → ℕ
salt_of none = 0
salt_of (some z) = natural z

-- The second test is made when the first passes.
abbrev pub first_of : Option Refusal → Option Refusal → Option Refusal
first_of none second = second
first_of (some why) second = some why

abbrev pub need : Bool → Refusal → Option Refusal
need b why = if b then none else some why

unfoldable pub check_fields : OrderIn → Option Refusal
unfolding u256
check_fields body = first_of (need (is_number body.maker) Refusal.bad_maker) (
    first_of (need (is_number body.condition_id) Refusal.bad_condition) (
      first_of (need (is_number body.order_hash) Refusal.bad_hash) (
        first_of (need (between 0 2 body.outcome) Refusal.bad_outcome) (
          first_of (need (between 1 1_000_001 body.price) Refusal.bad_price) (
            first_of (need (between 1 (2 ^ 63) body.amount) Refusal.bad_amount) (
              first_of (need (between 0 (2 ^ 63) body.nonce) Refusal.bad_nonce) (
                first_of (need (between 1 (2 ^ 63) body.expiry) Refusal.bad_expiry)
                  (need (u256 body.salt) Refusal.bad_salt))))))))

abbrev pub bytes_of : Option (List ℕ) → List ℕ
bytes_of none = []
bytes_of (some raw) = raw

-- `OrderFields.from_body`, as the row that would be stored.
unfoldable pub order_of : OrderIn → ℕ → ℕ → Order
order_of body id order_hash = record {
  id = id;
  order_hash = order_hash;
  maker = number body.maker;
  condition_id = number body.condition_id;
  is_buy = body.is_buy;
  outcome = natural body.outcome;
  price = natural body.price;
  amount = natural body.amount;
  filled = 0;
  salt = salt_of body.salt;
  nonce = natural body.nonce;
  expiry = natural body.expiry;
  signature = from_bytes 0 (bytes_of body.signature);
  cancelled = false;
}

abbrev pub is_open : ℕ → ℕ → ℕ → Order → Bool
is_open maker nonce now o =
    o.maker == maker
    && not o.cancelled
    && ltb now o.expiry
    && o.nonce == nonce
    && ltb o.filled o.amount

-- `_open_orders`
unfoldable pub open_orders : List Order → ℕ → ℕ → ℕ → List Order
open_orders orders maker nonce now = keep (is_open maker nonce now) orders

abbrev pub claim_of : Order → Order → ℕ
claim_of new o =
    if new.is_buy
    then (if o.is_buy then order_usdc_need (remaining o) o.price exchange_taker_fee_bps else 0)
    else if not o.is_buy && o.condition_id == new.condition_id && o.outcome == new.outcome
    then remaining o
    else 0

-- `_reserved`
unfoldable pub reserved : List Order → Order → ℕ
unfolding order_usdc_need
reserved orders new = sum_by (claim_of new) orders

-- The checks on the chain; `ledger` is `none` where a read fails.
unfoldable pub preflight_gate : Settings → Option Ledger → List Order → Order → Option Refusal
unfolding preflight_order reserved
preflight_gate s ledger orders o = if not s.relayer_preflight_on_post then none else elim ledger [
  | none ↦ some Refusal.chain_unavailable
  | some l ↦ elim (preflight_order l o o.amount exchange_taker_fee_bps (reserved orders o)) [
    | [] ↦ none
    | r ∷ rs ↦ some (Refusal.preflight_failed (r ∷ rs))
  ]
]

unfoldable pub relayer_gate : Deployment → Option Ledger → List Order → Order → Option Refusal
unfolding preflight_gate relayer_ready
relayer_gate d ledger orders o =
    if not d.settings.relayer_enabled
    then none
    else first_of (need (relayer_ready d) Refusal.relayer_misconfigured) (
        first_of
          (need (ltb (length orders) d.settings.relayer_max_open_orders_per_maker)
            Refusal.too_many_open)
          (preflight_gate d.settings ledger orders o))

abbrev pub halt_gate : Option HaltReason → Option Refusal
halt_gate none = none
halt_gate (some why) = some (Refusal.halted why)

abbrev pub fresh_gate : Option Order → Option Refusal
fresh_gate none = none
fresh_gate (some o) = some Refusal.duplicate

module _ (c : Crypto) where
  abbrev pub signing_gate : OrderIn → Order → Domain → Option Refusal
  signing_gate body o domain =
      first_of (need (order_digest c o domain == number body.order_hash) Refusal.hash_mismatch)
        (need (verify_order_signature c o body.signature domain) Refusal.bad_signature)

  -- What the order is tested for before the domain is read, and after it.
  unfoldable pub early_gate : Deployment → Db → ℕ → ℕ → OrderIn → Option Refusal
  unfolding check_fields trading_halt_reason
  early_gate d db now user body =
      first_of (need (is_number body.maker && number body.maker == user) Refusal.maker_mismatch) (
        first_of (check_fields body) (
          halt_gate
            (trading_halt_reason db.markets db.listings (number body.condition_id) d.settings now)))

  unfoldable pub late_gate :
      Deployment → Db → Option Ledger → ℕ → OrderIn → Order → Domain → Option Refusal
  unfolding order_digest verify_order_signature relayer_gate open_orders
  late_gate d db ledger now body o domain = first_of (signing_gate body o domain) (
      first_of
        (need (ltb (now + d.settings.relayer_min_expiry_seconds) o.expiry) Refusal.order_expired)
        (first_of (fresh_gate (find order_hash_key o.order_hash db.orders))
          (relayer_gate d ledger (open_orders db.orders o.maker o.nonce now) o)))

  -- The row as it is stored: its hash is the digest.
  abbrev pub row_of : OrderIn → ℕ → Domain → Order
  row_of body id domain = order_of body id (order_digest c (order_of body id 0) domain)

  abbrev pub with_row : World → Order → World
  with_row w o = record w { db = record w.db { orders = w.db.orders ++ o ∷ [] } }

  abbrev pub matched : Matching → World × Posted
  matched m = (m.world, Posted.stored m.incoming m.fills)

  -- `await db.flush()`, its IntegrityError, and the match.
  unfoldable pub store_order :
      Deployment → World → ℕ → Bool → Order → Option Refusal → World × Posted
  unfolding try_match
  store_order d w now raced o (some why) = (w, Posted.refused why)
  store_order d w now true o none = (w, Posted.refused Refusal.duplicate)
  store_order d w now false o none = matched (try_match d now (with_row w o) o)

  unfoldable pub post_signed :
      Deployment → World → Option Ledger → ℕ → ℕ → Bool → OrderIn → Option Domain → World × Posted
  unfolding store_order late_gate order_of order_digest
  post_signed d w ledger now id raced body none = (w, Posted.refused Refusal.exchange_missing)
  post_signed d w ledger now id raced body (some domain) =
      let o = row_of body id domain in
      store_order d w now raced o (late_gate d w.db ledger now body o domain)

  abbrev pub after_early :
      Deployment → World → Option Ledger → ℕ → ℕ → Bool → OrderIn → Option Refusal → World × Posted
  unfolding post_signed
  after_early d w ledger now id raced body (some why) = (w, Posted.refused why)
  after_early d w ledger now id raced body none = post_signed d w ledger now id raced body d.domain

  unfoldable pub post_order :
      Deployment → World → Option Ledger → ℕ → ℕ → Bool → ℕ → OrderIn → World × Posted
  unfolding post_signed early_gate
  post_order d w ledger now id raced user body =
      after_early d w ledger now id raced body (early_gate d w.db now user body)
