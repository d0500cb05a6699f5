-- ===== src/Relayer/Gas/Bounds.antt =====
-- Theorems on the fee policy (backend/app/relayer/gas.py): caps, replacements and gas limits.
use over_under.Prelude.{
  ℕ, ◌+◌, ◌*◌, ◌≤◌, ◌<◌, ◌≡◌, refl, sym, ◌∙◌, ◌⊎◌, max, inl, inr, Option, none, some, arith, min,
  Option-cases,
}
use native.Mathlib.Decide.{dec_lt}
use over_under.Settings.{Settings}
use over_under.Relayer.Gas.{
  FeeQuote, ceil_bps, bps, bump_factor, quote_fees, bump_legacy, bump_dynamic, bump_fees, gas_limit,
}

-- A quote that the code makes: the tip is within the fee, and a legacy price stands in both fields.
pub record IsQuote (q : FeeQuote) : Type 0 where
  pub tip_within : q.tip ≤ q.max_fee
  pub legacy :
      (q.legacy_gas_price ≡ none) ⊎ ((q.legacy_gas_price ≡ some q.max_fee) × (q.tip ≡ q.max_fee))

-- A fresh quote is well formed and within the cap, with a base fee or without.
pub quote_fees-IsQuote :
    (base_fee : Option ℕ) (suggested : ℕ) (gas_price : Option ℕ) (s : Settings) (q : FeeQuote)
    → quote_fees base_fee suggested gas_price s ≡ some q
    → IsQuote q × (q.max_fee ≤ s.relayer_max_fee_per_gas_wei)
unfolding quote_fees
quote_fees-IsQuote none suggested gas_price s q e =
    (record { tip_within = ground arith; legacy = ground arith }, ground arith)
quote_fees-IsQuote (some base) suggested gas_price s q e =
    (record { tip_within = ground arith; legacy = ground arith }, ground arith)

-- With a base fee there is a quote exactly when the cap covers the base fee and the tip; it then
-- covers both.
pub quote_fees-covers :
    (base suggested : ℕ) (gas_price : Option ℕ) (s : Settings)
    → ((quote_fees (some base) suggested gas_price s ≡ none)
        × (s.relayer_max_fee_per_gas_wei < base + max suggested s.relayer_priority_fee_wei))
      ⊎ ((q : FeeQuote) × (quote_fees (some base) suggested gas_price s ≡ some q)
          × (q.tip ≡ max suggested s.relayer_priority_fee_wei)
          × (base + q.tip ≤ q.max_fee))
unfolding quote_fees
quote_fees-covers base suggested gas_price s =
    elim (dec_lt s.relayer_max_fee_per_gas_wei (base + max suggested s.relayer_priority_fee_wei)) [
      | yes over ↦ inl (ground arith, over)
      | no fits ↦ inr (
        record {
          max_fee =
              min (2 * base + max suggested s.relayer_priority_fee_wei)
                s.relayer_max_fee_per_gas_wei;
          tip = max suggested s.relayer_priority_fee_wei;
          legacy_gas_price = none;
        },
        ground arith,
        refl,
        omega arith,
      )
    ]

ceil_bps-ge : (x b : ℕ) → x * b ≤ bps * ceil_bps x b
ceil_bps-ge x b = omega arith

-- Ten percent more, at least.
ceil_bps-grows : (x : ℕ) (s : Settings) → 11 * x ≤ 10 * ceil_bps x (bump_factor s)
ceil_bps-grows x s =
    let k : x * 11_000 ≤ x * bump_factor s = grind arith in
    omega (arith, ceil_bps-ge x (bump_factor s))

bump_dynamic_lem :
    (q : FeeQuote) (s : Settings) (base_fee : Option ℕ) (q' : FeeQuote)
    → bump_dynamic q s base_fee ≡ some q'
    → (q'.tip ≡ ceil_bps q.tip (bump_factor s))
      × (ceil_bps q.max_fee (bump_factor s) ≤ q'.max_fee)
      × (q'.max_fee ≤ s.relayer_max_fee_per_gas_wei)
      × IsQuote q'
unfolding bump_dynamic
bump_dynamic_lem q s base_fee q' e = (
  ground arith,
  ground arith,
  ground arith,
  record { tip_within = ground arith; legacy = ground arith },
)

bump_legacy_lem :
    (price : ℕ) (s : Settings) (q' : FeeQuote)
    → bump_legacy price s ≡ some q'
    → (q'.tip ≡ ceil_bps price (bump_factor s))
      × (q'.max_fee ≡ ceil_bps price (bump_factor s))
      × (q'.max_fee ≤ s.relayer_max_fee_per_gas_wei)
      × IsQuote q'
unfolding bump_legacy
bump_legacy_lem price s q' e = (
  ground arith,
  ground arith,
  ground arith,
  record { tip_within = ground arith; legacy = ground arith },
)

bump_fees-dynamic :
    (q : FeeQuote) (s : Settings) (base_fee : Option ℕ)
    → q.legacy_gas_price ≡ none
    → bump_fees q s base_fee ≡ bump_dynamic q s base_fee
unfolding bump_fees
bump_fees-dynamic q s base_fee e = ground arith

bump_fees-legacy :
    (q : FeeQuote) (s : Settings) (base_fee : Option ℕ) (price : ℕ)
    → q.legacy_gas_price ≡ some price
    → bump_fees q s base_fee ≡ bump_legacy price s
unfolding bump_fees
bump_fees-legacy q s base_fee price e = ground arith

-- A replacement raises the fee and the tip by ten percent at least, as nodes demand, stays within the
-- cap and is well formed.
pub bump_fees-grows :
    (q : FeeQuote) (s : Settings) (base_fee : Option ℕ) (q' : FeeQuote)
    → IsQuote q
    → bump_fees q s base_fee ≡ some q'
    → (11 * q.max_fee ≤ 10 * q'.max_fee)
      × (11 * q.tip ≤ 10 * q'.tip)
      × (q'.max_fee ≤ s.relayer_max_fee_per_gas_wei)
      × IsQuote q'
bump_fees-grows q s base_fee q' h e = elim (Option-cases q.legacy_gas_price) [
  | inl dynamic ↦
      let (tip, fee, cap, ok) =
        bump_dynamic_lem q s base_fee q' (sym (bump_fees-dynamic q s base_fee dynamic) ∙ e) in
      (omega (arith, ceil_bps-grows q.max_fee s), omega (arith, ceil_bps-grows q.tip s), cap, ok)
  | inr (price, old) ↦
      let (tip, fee, cap, ok) =
        bump_legacy_lem price s q' (sym (bump_fees-legacy q s base_fee price old) ∙ e) in
      let same : (price ≡ q.max_fee) × (q.tip ≡ q.max_fee) = ground arith in
      (omega (arith, ceil_bps-grows price s), omega (arith, ceil_bps-grows price s), cap, ok)
]

-- The gas limit of a send covers the estimate, within the cap.
pub gas_limit_bounds :
    (estimate : ℕ) (s : Settings) (g : ℕ)
    → gas_limit estimate s ≡ some g
    → (0 < estimate) × (estimate ≤ g) × (g ≤ s.relayer_gas_limit_cap)
unfolding gas_limit
gas_limit_bounds estimate s g e =
    let k : estimate * bps ≤ estimate * (bps + s.relayer_gas_buffer_bps) = grind arith in
    (
      ground arith,
      ground (arith, ceil_bps-ge estimate (bps + s.relayer_gas_buffer_bps)),
      ground arith,
    )
