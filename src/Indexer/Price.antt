-- ===== src/Indexer/Price.antt =====
-- Pool prices in micros of a dollar and the points they become (backend/app/indexer/listener.py). The
-- distribution function of the standard normal, rounded to micros, is a parameter.
use over_under.Prelude.{ℕ, ◌+◌, ◌*◌, ◌/◌, min, max, Option, none, some, ltb, ◌==◌, if◌then◌else◌}

pub record PricePoint : Type 0 where
  pub condition_id : ℕ
  pub ts : ℕ
  pub block_number : ℕ
  pub log_index : ℕ
  pub yes_price_micros : ℕ

abbrev pub seed_price_micros : ℕ
seed_price_micros = 500_000

unfoldable pub mid_to_micros : ℕ → ℕ → ℕ
mid_to_micros yes_reserve no_reserve =
    if yes_reserve + no_reserve == 0
    then seed_price_micros
    else no_reserve * 1_000_000 / (yes_reserve + no_reserve)

-- `round(cdf((no - yes) / liquidity) * 1_000_000)` of the reserves and the liquidity.
abbrev pub Cdf : Type 0
Cdf = ℕ → ℕ → ℕ → ℕ

unfoldable pub pm_price_micros : Cdf → ℕ → ℕ → ℕ → ℕ
unfolding mid_to_micros
pm_price_micros cdf yes_reserve no_reserve liquidity =
    if liquidity == 0
    then mid_to_micros yes_reserve no_reserve
    else max 0 (min 1_000_000 (cdf yes_reserve no_reserve liquidity))

-- What `pools(cid)` answers; the fifth column is `none` where the tuple is shorter.
pub record Pool : Type 0 where
  pub yes_reserve : ℕ
  pub no_reserve : ℕ
  pub liquidity : Option ℕ

unfoldable pub pool_price_micros : Cdf → Pool → ℕ
unfolding pm_price_micros
pool_price_micros cdf pool = elim pool.liquidity [
  | none ↦ mid_to_micros pool.yes_reserve pool.no_reserve
  | some liquidity ↦
      if ltb 0 liquidity
      then pm_price_micros cdf pool.yes_reserve pool.no_reserve liquidity
      else mid_to_micros pool.yes_reserve pool.no_reserve
]

unfoldable pub build_seed_point : ℕ → ℕ → ℕ → ℕ → PricePoint
build_seed_point condition_id ts block_number log_index = record {
  condition_id = condition_id;
  ts = ts;
  block_number = block_number;
  log_index = log_index;
  yes_price_micros = seed_price_micros;
}

unfoldable pub build_swap_point : Cdf → ℕ → ℕ → ℕ → ℕ → ℕ → ℕ → ℕ → PricePoint
unfolding pm_price_micros
build_swap_point cdf condition_id ts block_number log_index yes_reserve no_reserve liquidity =
    record {
      condition_id = condition_id;
      ts = ts;
      block_number = block_number;
      log_index = log_index;
      yes_price_micros = pm_price_micros cdf yes_reserve no_reserve liquidity;
    }
