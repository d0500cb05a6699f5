-- ===== src/Orders/Posting/Fields.antt =====
-- What `_check_fields` of backend/app/orderbook/router.py leaves true of the order that is made of a body.
use over_under.Prelude.{
  ℕ, ◌^◌, ◌≤◌, ◌<◌, ◌≡◌, refl, ap, Bool, true, false, Option, none, some, arith, ℤ, pos, negsuc,
  between, natural,
}
use over_under.Db.{Order}
use over_under.Orders.Signing.{from_bytes}
use over_under.Orders.Post.{
  OrderIn, Refusal, is_number, number, u256, salt_of, bytes_of, first_of, need, check_fields,
  order_of,
}

pub first_of-none : (a b : Option Refusal) → first_of a b ≡ none → (a ≡ none) × (b ≡ none)
first_of-none none b h = (refl, h)
first_of-none (some why) b h = absurd (ground (arith, h))

pub need-true : (b : Bool) (why : Refusal) → need b why ≡ none → b ≡ true
need-true true why h = refl
need-true false why h = absurd (ground (arith, h))

between_bounds :
    (low high : ℕ) (z : ℤ) → between low high z ≡ true → (low ≤ natural z) × (natural z < high)
between_bounds low high (pos n) h = ground (arith, h)
between_bounds low high (negsuc n) h = absurd (ground (arith, h))

between_pos : (low high : ℕ) (z : ℤ) → between low high z ≡ true → z ≡ pos (natural z)
between_pos low high (pos n) h = refl
between_pos low high (negsuc n) h = absurd (ground (arith, h))

is_number-some : (n : Option ℕ) → is_number n ≡ true → n ≡ some (number n)
is_number-some none h = absurd (ground (arith, h))
is_number-some (some n) h = refl

u256_bounds :
    (salt : Option ℤ)
    → u256 salt ≡ true
    → (salt ≡ some (pos (salt_of salt))) × (salt_of salt < 2 ^ 256)
unfolding u256
u256_bounds none h = absurd (ground (arith, h))
u256_bounds (some z) h = (ap some (between_pos 0 (2 ^ 256) z h), (between_bounds 0 (2 ^ 256) z h).1)

-- The ranges of the fields that are stored.
pub record InBounds (o : Order) : Type 0 where
  pub outcome_bound : o.outcome < 2
  pub price_pos : 0 < o.price
  pub price_bound : o.price ≤ 1_000_000
  pub amount_pos : 0 < o.amount
  pub amount_bound : o.amount < 2 ^ 63
  pub nonce_bound : o.nonce < 2 ^ 63
  pub expiry_bound : o.expiry < 2 ^ 63
  pub salt_bound : o.salt < 2 ^ 256

-- The stored columns are the body's fields.
pub record FieldsOf (body : OrderIn) (o : Order) : Type 0 where
  pub maker_is : body.maker ≡ some o.maker
  pub side_is : body.is_buy ≡ o.is_buy
  pub condition_is : body.condition_id ≡ some o.condition_id
  pub outcome_is : body.outcome ≡ pos o.outcome
  pub price_is : body.price ≡ pos o.price
  pub amount_is : body.amount ≡ pos o.amount
  pub salt_is : body.salt ≡ some (pos o.salt)
  pub nonce_is : body.nonce ≡ pos o.nonce
  pub expiry_is : body.expiry ≡ pos o.expiry
  pub signature_is : o.signature ≡ from_bytes 0 (bytes_of body.signature)

pub check_fields_bounds :
    (body : OrderIn) (id h : ℕ)
    → check_fields body ≡ none
    → InBounds (order_of body id h) × FieldsOf body (order_of body id h)
unfolding check_fields order_of
check_fields_bounds body id h e =
    let a = first_of-none (need (is_number body.maker) Refusal.bad_maker) _ e in
    let b = first_of-none (need (is_number body.condition_id) Refusal.bad_condition) _ a.1 in
    let c = first_of-none (need (is_number body.order_hash) Refusal.bad_hash) _ b.1 in
    let d = first_of-none (need (between 0 2 body.outcome) Refusal.bad_outcome) _ c.1 in
    let p = first_of-none (need (between 1 1_000_001 body.price) Refusal.bad_price) _ d.1 in
    let q = first_of-none (need (between 1 (2 ^ 63) body.amount) Refusal.bad_amount) _ p.1 in
    let n = first_of-none (need (between 0 (2 ^ 63) body.nonce) Refusal.bad_nonce) _ q.1 in
    let x = first_of-none (need (between 1 (2 ^ 63) body.expiry) Refusal.bad_expiry) _ n.1 in
    let outcome = between_bounds 0 2 body.outcome (need-true _ _ d.0) in
    let price = between_bounds 1 1_000_001 body.price (need-true _ _ p.0) in
    let amount = between_bounds 1 (2 ^ 63) body.amount (need-true _ _ q.0) in
    let nonce = between_bounds 0 (2 ^ 63) body.nonce (need-true _ _ n.0) in
    let expiry = between_bounds 1 (2 ^ 63) body.expiry (need-true _ _ x.0) in
    let salt = u256_bounds body.salt (need-true _ _ x.1) in
    (
      record {
        outcome_bound = outcome.1;
        price_pos = price.0;
        price_bound = omega (arith, price.1);
        amount_pos = amount.0;
        amount_bound = amount.1;
        nonce_bound = nonce.1;
        expiry_bound = expiry.1;
        salt_bound = salt.1;
      },
      record {
        maker_is = is_number-some body.maker (need-true _ _ a.0);
        side_is = refl;
        condition_is = is_number-some body.condition_id (need-true _ _ b.0);
        outcome_is = between_pos 0 2 body.outcome (need-true _ _ d.0);
        price_is = between_pos 1 1_000_001 body.price (need-true _ _ p.0);
        amount_is = between_pos 1 (2 ^ 63) body.amount (need-true _ _ q.0);
        salt_is = salt.0;
        nonce_is = between_pos 0 (2 ^ 63) body.nonce (need-true _ _ n.0);
        expiry_is = between_pos 1 (2 ^ 63) body.expiry (need-true _ _ x.0);
        signature_is = refl;
      },
    )

pub hash_field : (body : OrderIn) → check_fields body ≡ none → is_number body.order_hash ≡ true
unfolding check_fields
hash_field body e =
    let a = first_of-none (need (is_number body.maker) Refusal.bad_maker) _ e in
    let b = first_of-none (need (is_number body.condition_id) Refusal.bad_condition) _ a.1 in
    let c = first_of-none (need (is_number body.order_hash) Refusal.bad_hash) _ b.1 in
    need-true _ _ c.0
