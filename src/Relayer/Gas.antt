-- ===== src/Relayer/Gas.antt =====
-- EIP-1559 fee and gas-limit policy with hard caps (backend/app/relayer/gas.py), in wei and gas.
pub mod Bounds
use over_under.Prelude.{
  ℕ, ◌+◌, ◌-◌, ◌*◌, ◌/◌, min, max, Bool, true, false, ◌||◌, Option, none, some, ltb, leb,
  if◌then◌else◌,
}
use over_under.Settings.{Settings}

abbrev pub bps : ℕ
bps = 10_000

pub record FeeQuote : Type 0 where
  pub max_fee : ℕ
  pub tip : ℕ
  pub legacy_gas_price : Option ℕ

-- `_ceil_bps`
abbrev pub ceil_bps : ℕ → ℕ → ℕ
ceil_bps x b = (x * b + bps - 1) / bps

abbrev legacy_quote : ℕ → FeeQuote
legacy_quote gp = record { max_fee = gp; tip = gp; legacy_gas_price = some gp }

-- Without a base fee: the legacy gas price, if there is one within the cap.
quote_legacy : Option ℕ → ℕ → Option FeeQuote
quote_legacy none cap = none
quote_legacy (some gp) cap = if leb gp 0 || ltb cap gp then none else some (legacy_quote gp)

-- `suggested_tip` is the node's answer, 0 where it gave none.
unfoldable pub quote_fees : Option ℕ → ℕ → Option ℕ → Settings → Option FeeQuote
unfolding quote_legacy
quote_fees none suggested_tip gas_price s = quote_legacy gas_price s.relayer_max_fee_per_gas_wei
quote_fees (some base_fee) suggested_tip gas_price s =
    let cap = s.relayer_max_fee_per_gas_wei in
    let tip = max suggested_tip s.relayer_priority_fee_wei in
    if ltb cap (base_fee + tip)
    then none
    else some
        (record { max_fee = min (2 * base_fee + tip) cap; tip = tip; legacy_gas_price = none })

abbrev pub bump_factor : Settings → ℕ
bump_factor s = bps + max s.relayer_fee_bump_bps 1000

-- `if base_fee is not None: max_fee = max(max_fee, 2 * base_fee + min_tip)`
abbrev with_base : Option ℕ → ℕ → ℕ → ℕ
with_base none min_max min_tip = min_max
with_base (some base_fee) min_max min_tip = max min_max (2 * base_fee + min_tip)

-- A replacement of a legacy price.
bump_legacy : ℕ → Settings → Option FeeQuote
bump_legacy price s =
    let gp = ceil_bps price (bump_factor s) in
    if ltb s.relayer_max_fee_per_gas_wei gp then none else some (legacy_quote gp)

-- A replacement of an EIP-1559 quote.
unfoldable pub bump_dynamic : FeeQuote → Settings → Option ℕ → Option FeeQuote
bump_dynamic q s base_fee =
    let min_tip = ceil_bps q.tip (bump_factor s) in
    let min_max = ceil_bps q.max_fee (bump_factor s) in
    let max_fee = min (with_base base_fee min_max min_tip) s.relayer_max_fee_per_gas_wei in
    if ltb max_fee min_max || ltb max_fee min_tip
    then none
    else some (record { max_fee = max_fee; tip = min_tip; legacy_gas_price = none })

unfoldable pub bump_fees : FeeQuote → Settings → Option ℕ → Option FeeQuote
unfolding bump_legacy bump_dynamic
bump_fees q s base_fee = elim q.legacy_gas_price [
  | some price ↦ bump_legacy price s
  | none ↦ bump_dynamic q s base_fee
]

unfoldable pub gas_limit : ℕ → Settings → Option ℕ
gas_limit estimate s =
    let cap = s.relayer_gas_limit_cap in
    if leb estimate 0 || ltb cap estimate
    then none
    else some (min (ceil_bps estimate (bps + s.relayer_gas_buffer_bps)) cap)
