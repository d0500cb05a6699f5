-- ===== src/Relayer/Preflight/Accepts/Clean.antt =====
-- What holds when a preflight of backend/app/relayer/preflight.py finds nothing, part by part.
use over_under.Prelude.{
  ℕ, ◌+◌, ◌≤◌, ◌<◌, ◌≡◌, refl, true, false, Option, List, [], ◌∷◌, ◌++◌, arith, sum_by,
}
use over_under.Settings.{Settings}
use over_under.Db.{Order}
use over_under.Relayer.Preflight.{
  exchange_taker_fee_bps, match_fee, Committed, Ledger, Role, order_state, funds_state,
}
use over_under.Relayer.Preflight.Exchange.{payments}

-- An order's own checks came back clean.
pub record CleanOrder (l : Ledger) (o : Order) (fill block_ts : ℕ) (s : Settings) : Type 0 where
  pub unexpired : block_ts + s.relayer_min_expiry_seconds < o.expiry
  pub nonce_ok : l.ex_nonce o.maker ≡ o.nonce
  pub uncancelled : l.ex_cancelled o.order_hash ≡ false
  pub fits : l.ex_filled o.order_hash + fill ≤ o.amount

pub order_state-clean :
    (l : Ledger) (role : Role) (o : Order) (fill block_ts : ℕ) (s : Settings) (c : Option Committed)
    → order_state l role o o.order_hash fill block_ts s c ≡ []
    → CleanOrder l o fill block_ts s
unfolding order_state
order_state-clean l role o fill block_ts s c e = ground arith

-- The funds' checks came back clean.
pub record CleanFunds (l : Ledger) (buyer seller : Order) (need fill : ℕ) : Type 0 where
  pub balance : need ≤ l.usdc_balance buyer.maker
  pub allowance : need ≤ l.usdc_allowance buyer.maker
  pub tokens : fill ≤ l.ctf_balance seller.maker seller.condition_id seller.outcome
  pub approved : l.ctf_approved seller.maker ≡ true

pub funds_state-clean :
    (l : Ledger) (rb : Role) (buyer : Order) (rs : Role) (seller : Order) (need fill : ℕ)
    (c : Committed)
    → funds_state l rb buyer rs seller need fill c ≡ []
    → CleanFunds l buyer seller need fill
unfolding funds_state
funds_state-clean l rb buyer rs seller need fill c e = ground arith

pub append-eq-nil {ℓ} : {A : Type ℓ} (xs ys : List A) → xs ++ ys ≡ [] → (xs ≡ []) × (ys ≡ [])
append-eq-nil [] ys e = (refl, e)
append-eq-nil (x ∷ xs) ys e = absurd (cc)

-- The match's payments add up to what the buyer was checked for.
pub payments-buy :
    (t : Order) (volume fee : ℕ)
    → t.is_buy ≡ true
    → sum_by (λ a. a) (payments t volume fee) ≤ volume + fee
payments-buy t volume fee b = ground arith

pub payments-sell :
    (t : Order) (volume fee : ℕ)
    → t.is_buy ≡ false
    → fee ≤ volume
    → sum_by (λ a. a) (payments t volume fee) ≤ volume
payments-sell t volume fee b h = ground arith

pub match_fee-le : (volume : ℕ) → match_fee volume exchange_taker_fee_bps ≤ volume
match_fee-le volume = omega arith
