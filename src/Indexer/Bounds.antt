-- ===== src/Indexer/Bounds.antt =====
-- The ranges of the indexer's prices, windows and delays (backend/app/indexer/listener.py).
use over_under.Prelude.{
  ℕ, ◌+◌, ◌^◌, ◌≤◌, ◌≡◌, min, Bool, true, false, ◌⊎◌, inl, inr, Option, none, some, List, [], ◌∷◌,
  arith, ◌==◌, Bool-cases,
}
use native.Mathlib.Nat.{div-le_of_le-mul, mul-le-mul_left, one-le-pow, pow-le-pow_right}
use over_under.Text.{Text, Unicode}
use over_under.Indexer.Price.{Cdf, Pool, mid_to_micros, pm_price_micros, pool_price_micros}
use over_under.Indexer.Plan.{IndexerSettings, next_delay, resolve_start_block, plan_ranges}
use over_under.Indexer.Checkpoint.{Store, load_checkpoint}
use over_under.Indexer.Tiles.{Tiles}
use over_under.Indexer.Ready.{plan_stops, plan-Tiles}
use over_under.Indexer.Amm.{Node, index_range}
use over_under.Indexer.Tick.{Tick, run_windows, after_window, at_head, index_once, window_of}

mid_to_micros_bound :
    (yes_reserve no_reserve : ℕ) → mid_to_micros yes_reserve no_reserve ≤ 1_000_000
unfolding mid_to_micros
mid_to_micros_bound y n = elim (Bool-cases (y + n == 0)) [
  | inl e ↦ rw e (omega arith)
  | inr e ↦ rw e (div-le_of_le-mul (y + n) (omega arith))
]

pm_price_micros_bound :
    (cdf : Cdf) (y n liquidity : ℕ) → pm_price_micros cdf y n liquidity ≤ 1_000_000
unfolding pm_price_micros
pm_price_micros_bound cdf y n liquidity = ground (arith, mid_to_micros_bound y n)

-- A price of a pool is between nothing and one dollar, whatever its reserves and liquidity are.
pub pool_price_micros_bound : (cdf : Cdf) (pool : Pool) → pool_price_micros cdf pool ≤ 1_000_000
unfolding pool_price_micros
pool_price_micros_bound cdf pool = ground (
  arith,
  mid_to_micros_bound pool.yes_reserve pool.no_reserve,
  λ (l : ℕ). pm_price_micros_bound cdf pool.yes_reserve pool.no_reserve l,
)

-- The sleep after a failure: the interval at least, the cap at most, and twice the one before until the
-- cap or the sixteenth failure.
pub next_delay_lem :
    (interval max_backoff failures : ℕ)
    → interval ≤ max_backoff
    → (interval ≤ next_delay interval (failures + 1) max_backoff)
      × (next_delay interval (failures + 1) max_backoff ≤ max_backoff)
      × (next_delay interval (failures + 1) max_backoff
          ≤ next_delay interval (failures + 2) max_backoff)
unfolding next_delay
next_delay_lem interval max_backoff failures h =
    let a = 2 ^ min (failures + 1) 16 in
    let b = 2 ^ min (failures + 2) 16 in
    let low = mul-le-mul_left interval (one-le-pow (min (failures + 1) 16) 2 (omega arith)) in
    let high = mul-le-mul_left interval (
      pow-le-pow_right {n = 2} (omega arith) {i = min (failures + 1) 16} {j = min (failures + 2) 16}
        (omega arith)) in
    ground (arith, low, high)

-- 0 before the first tick that reads blocks.
abbrev pub InRange : IndexerSettings → ℕ → Type 0
InRange s w = (w ≡ 0) ⊎ ((s.min_block_range ≤ w) × (w ≤ s.max_block_range))

module _ (u : Unicode) (keccak : Text → ℕ) (cdf : Cdf) (s : IndexerSettings) (has_amm : Bool) where
  after_InRange :
      (rest : List (ℕ × ℕ)) (a b w : ℕ) (go : Store → Tick) (r : Store × Bool)
      → s.min_block_range ≤ s.max_block_range
      → w ≤ s.max_block_range
      → b + 1 ≤ a + w
      → ((after : Store) → InRange s (go after).block_range)
      → InRange s (after_window u keccak cdf s has_amm a b go r).block_range
  unfolding after_window
  after_InRange rest a b w go (after, false) m h l ih = inr (omega arith, omega arith)
  after_InRange rest a b w go (after, true) m h l ih = ih _

  plan_InRange :
      (ranges : List (ℕ × ℕ)) (w end lo next : ℕ) (node : Node) (now : ℕ) (store : Store)
      → s.min_block_range ≤ s.max_block_range
      → s.min_block_range ≤ w
      → w ≤ s.max_block_range
      → Tiles w end lo ranges next
      → InRange s (run_windows u keccak cdf s has_amm node now w store ranges).block_range
  unfolding run_windows
  plan_InRange [] w end lo next node now store m p q t = inr (omega arith, omega arith)
  plan_InRange ((a, b) ∷ rest) w end lo next node now store m p q t =
      after_InRange rest a b w (λ after. run_windows u keccak cdf s has_amm node now w after rest)
        (index_range u keccak cdf node has_amm now store a b) m q t.3
        (λ after. plan_InRange rest w end (b + 1) next node now after m p q t.4)

  -- When the smallest window is at most the largest, the window that a tick leaves for the next one
  -- is 0 (for none yet) or between the two if the one before was.
  pub index_once-InRange :
      (leads : Bool) (node : Node) (now block_range : ℕ) (store : Store)
      → s.min_block_range ≤ s.max_block_range
      → InRange s block_range
      → InRange s (index_once u keccak cdf s has_amm leads node now store block_range).block_range
  unfolding index_once at_head
  index_once-InRange false node now block_range store m r = r
  index_once-InRange true node now block_range store m r = go node.head
    where
      go :
          (head : Option ℕ)
          → InRange s (at_head u keccak cdf s has_amm node now store block_range head).block_range
      go none = r
      go (some head) =
          let w = window_of s block_range in
          let l = load_checkpoint store s head in
          let start = resolve_start_block l.1 s.start_block head s.chain_id s.lookback_blocks in
          plan_InRange (plan_ranges start head w s.max_chunks_per_tick) w head start
            (plan_stops start head w s.max_chunks_per_tick) node now l.0 m (ground (arith, m, r))
            (ground (arith, m, r)) (plan-Tiles start head w s.max_chunks_per_tick)
