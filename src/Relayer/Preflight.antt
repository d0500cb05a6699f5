-- ===== src/Relayer/Preflight.antt =====
-- On-chain checks that mirror Exchange.matchOrders (backend/app/relayer/preflight.py). What the chain
-- answers is a `Ledger`: a read that fails raises out of the whole check, so the check is modelled
-- on answered reads and its callers on whether there are any. `OrderFields` are the order's columns.
pub mod Exchange
pub mod Accepts
use over_under.Prelude.{
  ℕ, ◌+◌, ◌-◌, ◌*◌, ◌/◌, Bool, true, false, not, ◌&&◌, Option, none, some, List, [], ◌∷◌, ◌++◌, ltb,
  leb, ◌==◌, if◌then◌else◌,
}
use over_under.Settings.{Settings}
use over_under.Db.{Order}

abbrev pub price_scale : ℕ
price_scale = 1_000_000

abbrev pub fee_scale : ℕ
fee_scale = 10_000

-- Exchange.vy's TAKER_FEE_BPS.
abbrev pub exchange_taker_fee_bps : ℕ
exchange_taker_fee_bps = 75

-- `match_amounts`
abbrev pub match_volume : ℕ → ℕ → ℕ
match_volume fill maker_price = fill * maker_price / price_scale

abbrev pub match_fee : ℕ → ℕ → ℕ
match_fee volume fee_bps = volume * fee_bps / fee_scale

unfoldable pub order_usdc_need : ℕ → ℕ → ℕ → ℕ
order_usdc_need rem price fee_bps =
    let volume = (rem * price + price_scale - 1) / price_scale in
    volume + (volume * fee_bps + fee_scale - 1) / fee_scale

-- What in-flight jobs will still take: the dicts of `Committed`, 0 on a missing key.
pub record Committed : Type 0 where
  pub usdc_of : ℕ → ℕ
  pub ctf_of : ℕ → ℕ → ℕ → ℕ
  pub filled_of : ℕ → ℕ

abbrev pub nothing_committed : Committed
nothing_committed = record {
  usdc_of = λ addr. 0;
  ctf_of = λ addr cid outcome. 0;
  filled_of = λ h. 0;
}

-- `d[k] = d.get(k, 0) + v`
abbrev pub add_at : ℕ → ℕ → (ℕ → ℕ) → ℕ → ℕ
add_at k v d j = if j == k then d j + v else d j

abbrev pub buyer_of : Order → Order → Order
buyer_of taker maker = if taker.is_buy then taker else maker

abbrev pub seller_of : Order → Order → Order
seller_of taker maker = if taker.is_buy then maker else taker

-- What the buyer of a match spends: the taker pays the fee on top.
abbrev pub spend_of : Order → Order → ℕ → ℕ
spend_of taker maker fill =
    let volume = match_volume fill maker.price in
    if taker.is_buy then volume + match_fee volume exchange_taker_fee_bps else volume

unfoldable pub add_match : Committed → Order → Order → ℕ → ℕ → ℕ → Committed
add_match c taker maker taker_hash maker_hash fill = record {
  usdc_of = add_at (buyer_of taker maker).maker (spend_of taker maker fill) c.usdc_of;
  ctf_of = λ addr cid outcome.
      if addr == seller.maker && cid == seller.condition_id && outcome == seller.outcome
      then c.ctf_of addr cid outcome + fill
      else c.ctf_of addr cid outcome;
  filled_of = add_at maker_hash fill (add_at taker_hash fill c.filled_of);
}
  where
    seller : Order
    seller = seller_of taker maker

-- The chain's answers, with the Exchange as spender and operator.
pub record Ledger : Type 0 where
  pub ctf_resolved : ℕ → Bool
  pub ex_nonce : ℕ → ℕ
  pub ex_cancelled : ℕ → Bool
  pub ex_filled : ℕ → ℕ
  pub usdc_balance : ℕ → ℕ
  pub usdc_allowance : ℕ → ℕ
  pub ctf_balance : ℕ → ℕ → ℕ → ℕ
  pub ctf_approved : ℕ → Bool

pub data Role : Type 0 where
  taker maker : Role

-- The reason strings; `busy` marks those that begin with "busy: ".
pub data Reason : Type 0 where
  market_resolved : Reason
  expired nonce_stale cancelled_onchain overfill : Role → Reason
  usdc_balance usdc_allowance ctf_balance ctf_not_approved : Role → Reason
  busy_fill busy_usdc busy_allowance busy_ctf : Role → Reason

abbrev pub is_busy : Reason → Bool
is_busy (Reason.busy_fill r) = true
is_busy (Reason.busy_usdc r) = true
is_busy (Reason.busy_allowance r) = true
is_busy (Reason.busy_ctf r) = true
is_busy _ = false

abbrev pub when : Bool → Reason → List Reason
when b r = if b then r ∷ [] else []

-- `_short`
unfoldable pub short : ℕ → ℕ → ℕ → Reason → Reason → List Reason
short have need busy hard soft =
    if ltb have need
    then hard ∷ []
    else if ltb 0 busy && ltb have (need + busy)
    then soft ∷ []
    else []

-- `committed.filled_of(h)` where something is committed.
abbrev pub in_flight_fill : Option Committed → ℕ → ℕ
in_flight_fill none h = 0
in_flight_fill (some c) h = c.filled_of h

abbrev pub committed_or : Option Committed → Committed
committed_or none = nothing_committed
committed_or (some c) = c

-- The fill of one order: over the amount on chain, or only with what is in flight.
unfoldable pub fill_state : Ledger → Role → Order → ℕ → ℕ → Option Committed → List Reason
fill_state l role o h fill committed =
    if ltb o.amount (l.ex_filled h + fill) then Reason.overfill role ∷ [] else elim committed [
      | none ↦ []
      | some c ↦ when (ltb o.amount (l.ex_filled h + c.filled_of h + fill)) (Reason.busy_fill role)
    ]

unfoldable pub order_state :
    Ledger → Role → Order → ℕ → ℕ → ℕ → Settings → Option Committed → List Reason
unfolding fill_state
order_state l role o h fill block_ts s committed =
    when (leb o.expiry (block_ts + s.relayer_min_expiry_seconds)) (Reason.expired role)
    ++ (when (not (l.ex_nonce o.maker == o.nonce)) (Reason.nonce_stale role)
        ++ (when (l.ex_cancelled h) (Reason.cancelled_onchain role)
            ++ fill_state l role o h fill committed))

-- The funds of a match: the buyer's USDC and allowance, the seller's outcome tokens and approval.
unfoldable pub funds_state : Ledger → Role → Order → Role → Order → ℕ → ℕ → Committed → List Reason
unfolding short
funds_state l buyer_role buyer seller_role seller need fill c =
    short (l.usdc_balance buyer.maker) need (c.usdc_of buyer.maker) (Reason.usdc_balance buyer_role)
      (Reason.busy_usdc buyer_role)
    ++ (short (l.usdc_allowance buyer.maker) need (c.usdc_of buyer.maker)
          (Reason.usdc_allowance buyer_role) (Reason.busy_allowance buyer_role)
        ++ (short (l.ctf_balance seller.maker seller.condition_id seller.outcome) fill
              (c.ctf_of seller.maker seller.condition_id seller.outcome)
              (Reason.ctf_balance seller_role) (Reason.busy_ctf seller_role)
            ++ when (not (l.ctf_approved seller.maker)) (Reason.ctf_not_approved seller_role)))

unfoldable pub preflight_match :
    Ledger → Order → Order → ℕ → ℕ → ℕ → ℕ → Settings → Option Committed → List Reason
unfolding order_state funds_state
preflight_match l t m taker_hash maker_hash fill block_ts s committed =
    when (l.ctf_resolved t.condition_id) Reason.market_resolved
    ++ (order_state l Role.taker t taker_hash fill block_ts s committed
        ++ (order_state l Role.maker m maker_hash fill block_ts s committed ++ funds))
  where
    c : Committed
    c = committed_or committed

    volume : ℕ
    volume = match_volume fill m.price

    funds : List Reason
    funds =
        if t.is_buy
        then funds_state l Role.taker t Role.maker m
            (volume + match_fee volume exchange_taker_fee_bps) fill c
        else funds_state l Role.maker m Role.taker t volume fill c

-- The reasons of `preflight_order`.
pub data OrderReason : Type 0 where
  nonce_stale usdc_balance usdc_allowance ctf_balance ctf_not_approved : OrderReason

abbrev pub when_order : Bool → OrderReason → List OrderReason
when_order b r = if b then r ∷ [] else []

-- `reserved` is what the maker's other open orders claim.
unfoldable pub preflight_order : Ledger → Order → ℕ → ℕ → ℕ → List OrderReason
unfolding order_usdc_need
preflight_order l o rem fee_bps reserved =
    when_order (not (l.ex_nonce o.maker == o.nonce)) OrderReason.nonce_stale
    ++ (if o.is_buy then buy else sell)
  where
    need : ℕ
    need = order_usdc_need rem o.price fee_bps + reserved

    buy : List OrderReason
    buy =
        when_order (ltb (l.usdc_balance o.maker) need) OrderReason.usdc_balance
        ++ when_order (ltb (l.usdc_allowance o.maker) need) OrderReason.usdc_allowance

    sell : List OrderReason
    sell =
        when_order (ltb (l.ctf_balance o.maker o.condition_id o.outcome) (rem + reserved))
          OrderReason.ctf_balance
        ++ when_order (not (l.ctf_approved o.maker)) OrderReason.ctf_not_approved
