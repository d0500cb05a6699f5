-- ===== src/Relayer/Preflight/Accepts.antt =====
-- What a clean preflight (backend/app/relayer/preflight.py) promises of `matchOrders` of
-- contracts/src/Exchange.vy.
pub mod Clean
use over_under.Prelude.{
  ℕ, ◌+◌, ◌*◌, ◌/◌, ◌^◌, ◌≤◌, ◌<◌, ◌≡◌, ◌≢◌, refl, sym, ◌∙◌, true, false, Option, [], arith, leb,
  same_flag, if◌then◌else◌, Bool-cases, inl, inr,
}
use over_under.Settings.{Settings}
use over_under.Db.{Order}
use over_under.Orderbook.Rows.{crosses}
use over_under.Orders.Signing.{order_digest, domain_separator, order_struct_hash}
use over_under.Relayer.Preflight.{
  exchange_taker_fee_bps, match_volume, match_fee, Committed, committed_or, Ledger, Role, Reason,
  when, order_state, preflight_match, buyer_of,
}
use over_under.Relayer.Preflight.Exchange.{
  Exchange, Usdc, fits, hash_order, recover_signer, validate, safe_transfer_from, has_room,
  payments, transfers, match_orders,
}
use over_under.Relayer.Preflight.Accepts.Clean.{
  CleanOrder, order_state-clean, CleanFunds, funds_state-clean, append-eq-nil, payments-buy,
  payments-sell, match_fee-le,
}

-- What POST /orders leaves true of every stored order: the ranges of `_check_fields`, the hash that the
-- backend computes, and a signature of that hash which recovers to the maker.
pub record IsStored (x : Exchange) (o : Order) : Type 0 where
  pub has_maker : o.maker ≢ 0
  pub outcome_bound : o.outcome < 2
  pub amount_pos : 0 < o.amount
  pub amount_bound : o.amount < 2 ^ 63
  pub price_pos : 0 < o.price
  pub price_bound : o.price ≤ 1_000_000
  pub hash_is : o.order_hash ≡ order_digest x.crypto o x.domain
  pub signature_ok : recover_signer x o.order_hash o.signature ≡ o.maker

-- The contract's digest is the backend's.
hash_order-eq-order_digest :
    (x : Exchange) (o : Order) → hash_order x.crypto x.domain o ≡ order_digest x.crypto o x.domain
unfolding hash_order order_digest domain_separator order_struct_hash
hash_order-eq-order_digest x o = refl

stored_hash :
    (x : Exchange) (o : Order) → IsStored x o → hash_order x.crypto x.domain o ≡ o.order_hash
stored_hash x o st = hash_order-eq-order_digest x o ∙ sym st.hash_is

-- No product of a match of stored orders overflows.
products_fit :
    (fill price : ℕ)
    → fill < 2 ^ 63
    → price ≤ 1_000_000
    → (fits (fill * price) ≡ true)
      × (fits (match_volume fill price * exchange_taker_fee_bps) ≡ true)
products_fit fill price b p =
    let most : fill * price ≤ fill * 1_000_000 = grind arith in
    (ground (arith, product (fill * price) most), ground (arith, scaled (fill * price) most))
  where
    product : (n : ℕ) → n ≤ fill * 1_000_000 → n < 2 ^ 256
    product n h = omega arith

    scaled : (n : ℕ) → n ≤ fill * 1_000_000 → n / 1_000_000 * 75 < 2 ^ 256
    scaled n h = omega arith

room_lem :
    (l : Ledger) (x : Exchange) (o : Order) (fill block_ts : ℕ) (s : Settings)
    → IsStored x o
    → CleanOrder l o fill block_ts s
    → has_room l (hash_order x.crypto x.domain o) fill o.amount ≡ true
room_lem l x o fill block_ts s st clean =
    rw (stored_hash x o st) (ground (arith, clean.fits, st.amount_bound))

validate-clean :
    (x : Exchange) (l : Ledger) (timestamp : ℕ) (o : Order) (fill block_ts : ℕ) (s : Settings)
    → IsStored x o
    → CleanOrder l o fill block_ts s
    → timestamp ≤ block_ts + s.relayer_min_expiry_seconds
    → validate x l timestamp o ≡ true
unfolding validate
validate-clean x l timestamp o fill block_ts s st clean soon = rw (stored_hash x o st) (
    ground
      (arith, st.signature_ok, clean.uncancelled, clean.nonce_ok, clean.unexpired, st.has_maker))

moved_lem :
    (l : Ledger) (sender receiver cid outcome amount : ℕ)
    → receiver ≢ 0
    → l.ctf_approved sender ≡ true
    → amount ≤ l.ctf_balance sender cid outcome
    → l.ctf_balance receiver cid outcome + amount < 2 ^ 256
    → safe_transfer_from l sender receiver cid outcome amount ≡ true
unfolding safe_transfer_from
moved_lem l sender receiver cid outcome amount r a b h = ground (arith, r, a, b, h)

-- The parts of a clean preflight.
record CleanMatch (l : Ledger) (t m : Order) (fill block_ts : ℕ) (s : Settings) : Type 0 where
  unresolved : l.ctf_resolved t.condition_id ≡ false
  taker_clean : CleanOrder l t fill block_ts s
  maker_clean : CleanOrder l m fill block_ts s
  buy_funds :
      t.is_buy ≡ true
      → CleanFunds l t m
          (match_volume fill m.price + match_fee (match_volume fill m.price) exchange_taker_fee_bps)
          fill
  sell_funds : t.is_buy ≡ false → CleanFunds l m t (match_volume fill m.price) fill

preflight_match-clean :
    (l : Ledger) (t m : Order) (fill block_ts : ℕ) (s : Settings) (c : Option Committed)
    → preflight_match l t m t.order_hash m.order_hash fill block_ts s c ≡ []
    → CleanMatch l t m fill block_ts s
unfolding preflight_match
preflight_match-clean l t m fill block_ts s c e =
    let (a, e₁) = append-eq-nil (when (l.ctf_resolved t.condition_id) Reason.market_resolved) _ e in
    let (b, e₂) = append-eq-nil (order_state l Role.taker t t.order_hash fill block_ts s c) _ e₁ in
    let (d, f) = append-eq-nil (order_state l Role.maker m m.order_hash fill block_ts s c) _ e₂ in
    record {
      unresolved = ground arith;
      taker_clean = order_state-clean l Role.taker t fill block_ts s c b;
      maker_clean = order_state-clean l Role.maker m fill block_ts s c d;
      buy_funds = λ buy.
          funds_state-clean l Role.taker t Role.maker m _ fill (committed_or c) (rw buy at f);
      sell_funds = λ sell.
          funds_state-clean l Role.maker m Role.taker t _ fill (committed_or c) (rw sell at f);
    }

module _ (x : Exchange) (l : Ledger) (usdc : Usdc l) (t m : Order) (fill block_ts : ℕ)
    (s : Settings) (clean : CleanMatch l t m fill block_ts s)
    (same_cid : t.condition_id ≡ m.condition_id) (same_outcome : t.outcome ≡ m.outcome)
    (has_taker : t.maker ≢ 0) (has_maker : m.maker ≢ 0)
    (buyer_room : l.ctf_balance (buyer_of t m).maker t.condition_id t.outcome + fill
      < 2 ^ 256) where
  transfers-buy :
      t.is_buy ≡ true
      → transfers l usdc t m fill
          (match_volume fill m.price)
          (match_fee (match_volume fill m.price) exchange_taker_fee_bps)
        ≡ true
  unfolding transfers
  transfers-buy buy =
      let volume : ℕ = match_volume fill m.price in
      let fee : ℕ = match_fee volume exchange_taker_fee_bps in
      let f = clean.buy_funds buy in
      let due = payments-buy t volume fee buy in
      let paid =
        usdc.pays_covered t.maker (payments t volume fee) (omega (arith, f.balance, due))
          (omega (arith, f.allowance, due)) in
      let moved =
        moved_lem l m.maker t.maker t.condition_id t.outcome fill has_taker f.approved
          (ground (arith, f.tokens, same_cid, same_outcome)) (rw buy at buyer_room) in
      ground (arith, paid, moved, buy)

  transfers-sell :
      t.is_buy ≡ false
      → transfers l usdc t m fill
          (match_volume fill m.price)
          (match_fee (match_volume fill m.price) exchange_taker_fee_bps)
        ≡ true
  unfolding transfers
  transfers-sell sell =
      let volume : ℕ = match_volume fill m.price in
      let fee : ℕ = match_fee volume exchange_taker_fee_bps in
      let f = clean.sell_funds sell in
      let due = payments-sell t volume fee sell (match_fee-le volume) in
      let paid =
        usdc.pays_covered m.maker (payments t volume fee) (omega (arith, f.balance, due))
          (omega (arith, f.allowance, due)) in
      let moved =
        moved_lem l t.maker m.maker t.condition_id t.outcome fill has_maker f.approved f.tokens
          (rw sell at buyer_room) in
      ground (arith, paid, moved, sell)

  transfers-clean :
      transfers l usdc t m fill
        (match_volume fill m.price)
        (match_fee (match_volume fill m.price) exchange_taker_fee_bps)
      ≡ true
  transfers-clean = elim (Bool-cases t.is_buy) [
    | inl buy ↦ transfers-buy buy
    | inr sell ↦ transfers-sell sell
  ]

-- The parts of a crossing that the contract tests too.
crosses-parts :
    (t m : Order) (min_expiry : ℕ)
    → crosses t m min_expiry ≡ true
    → (t.condition_id ≡ m.condition_id)
      × (t.outcome ≡ m.outcome)
      × (same_flag t.is_buy m.is_buy ≡ false)
      × ((if t.is_buy then leb m.price t.price else leb t.price m.price) ≡ true)
unfolding crosses
crosses-parts t m min_expiry h = (ground arith, ground arith, ground arith, ground arith)

-- A match that the matcher made, of stored orders and a positive quantity, and whose preflight finds
-- no reason against it, is accepted by the Exchange, overflow checks included, in whatever block it is
-- mined up to `relayer_min_expiry_seconds` behind the block that was checked, as long as what the chain
-- answered still holds and the buyer's balance of the outcome token has room for the fill.
pub preflight_match-accepts :
    (x : Exchange) (l : Ledger) (usdc : Usdc l) (t m : Order)
    (fill min_expiry block_ts timestamp : ℕ) (s : Settings) (c : Option Committed)
    → crosses t m min_expiry ≡ true
    → IsStored x t
    → IsStored x m
    → 0 < fill
    → preflight_match l t m t.order_hash m.order_hash fill block_ts s c ≡ []
    → timestamp ≤ block_ts + s.relayer_min_expiry_seconds
    → l.ctf_balance (buyer_of t m).maker t.condition_id t.outcome + fill < 2 ^ 256
    → match_orders x l usdc timestamp t m fill ≡ true
unfolding match_orders
preflight_match-accepts x l usdc t m fill min_expiry block_ts timestamp s c cross st sm pos e soon
      room =
    let clean = preflight_match-clean l t m fill block_ts s c e in
    let (cid, outcome, sides, prices) = crosses-parts t m min_expiry cross in
    let (product, scaled) =
      products_fit fill m.price (omega (arith, clean.maker_clean.fits, sm.amount_bound))
        sm.price_bound in
    ground (
      arith,
      cid,
      outcome,
      sides,
      prices,
      clean.unresolved,
      validate-clean x l timestamp t fill block_ts s st clean.taker_clean soon,
      validate-clean x l timestamp m fill block_ts s sm clean.maker_clean soon,
      room_lem l x t fill block_ts s st clean.taker_clean,
      room_lem l x m fill block_ts s sm clean.maker_clean,
      product,
      scaled,
      transfers-clean x l usdc t m fill block_ts s clean cid outcome st.has_maker sm.has_maker room,
    )
