-- ===== src/Tests/Indexing.antt =====
-- Two ticks of the indexer over a short chain.
use over_under.Prelude.{
  ℕ, zero, suc, ◌+◌, ◌≤◌, ◌≡◌, refl, inl, true, none, some, List, [], ◌∷◌, arith, keep, min, length,
}
use over_under.Text.{Text}
use over_under.Indexer.Price.{Cdf, Pool, pool_price_micros}
use over_under.Indexer.Plan.{IndexerSettings, plan_ranges}
use over_under.Indexer.Checkpoint.{Store}
use over_under.Indexer.Events.{ChainLog}
use over_under.Indexer.Amm.{AmmEvent, Node}
use over_under.Indexer.Tick.{ticks, index_once}
use over_under.Indexer.Tiles.{Tiles, plan_ranges-Tiles, reach}
use over_under.Indexer.Gapless.{Answers, in_blocks}
use over_under.Indexer.Ready.{Ready, Onward}
use over_under.Indexer.History.{ticks_gapless}
use over_under.Indexer.Progress.{Answering, node_of, ticks_reach, Reached}
use over_under.Indexer.Bounds.{pool_price_micros_bound, index_once-InRange, InRange}
use over_under.Tests.Listing.{ascii, empty_db}

plan_ranges-Tiles_example :
    Tiles 4 20 3 (plan_ranges 3 20 4 2) (reach 3 20 4 2) × (length (plan_ranges 3 20 4 2) ≤ 2)
plan_ranges-Tiles_example = plan_ranges-Tiles 3 20 4 2 (omega arith) (omega arith)

abbrev cdf : Cdf
cdf yes_reserve no_reserve liquidity = 700_000

abbrev pool : Pool
pool = record { yes_reserve = 30; no_reserve = 70; liquidity = none }

pool_price_micros_bound_example : pool_price_micros cdf pool ≤ 1_000_000
pool_price_micros_bound_example = pool_price_micros_bound cdf pool

mid_price : pool_price_micros cdf pool ≡ 700_000
unfolding pool_price_micros
mid_price = refl

abbrev settings : IndexerSettings
settings = record {
  chain_id = 8453;
  start_block = 0;
  lookback_blocks = 100;
  max_block_range = 4;
  min_block_range = 2;
  max_chunks_per_tick = 2;
}

abbrev seeds : List (ChainLog AmmEvent)
seeds = record { block_number = 12; log_index = 1; event = AmmEvent.seeded (some 9) } ∷ []

abbrev swaps : List (ChainLog AmmEvent)
swaps =
    record { block_number = 12; log_index = 3; event = AmmEvent.swap (some 9) }
    ∷ record { block_number = 17; log_index = 0; event = AmmEvent.swap (some 9) }
    ∷ []

abbrev store : Store
store = record { db = empty_db; points = []; last_block = some 9; legacy = none }

abbrev keccak : Text → ℕ
keccak t = 0

abbrev answering : Answering
answering = record {
  head = 20;
  created_logs = λ lo hi. [];
  paused_logs = λ lo hi. [];
  seeded_logs = λ lo hi. keep (in_blocks lo hi) seeds;
  swap_logs = λ lo hi. keep (in_blocks lo hi) swaps;
  timestamp = λ l. 1_000 + l.block_number;
  pool = λ l. pool;
  commitments = λ cid. none;
}

abbrev start_at : ℕ
start_at = 10

ready : Ready start_at seeds swaps settings store 9
ready = ground arith

ticks_reach_example :
    Reached start_at seeds swaps settings (min 20 (9 + 2)) (
      ticks ascii keccak cdf settings true
        (λ i. true)
        (λ i. node_of answering)
        (λ i. 5_000)
        2
        store)
ticks_reach_example =
    ticks_reach ascii keccak cdf settings start_at seeds swaps (omega arith) (omega arith)
      (λ i. answering) (λ i. 5_000) (λ i lo hi. refl) (λ i lo hi. refl) 2 9 20 store
      (λ i. omega arith) ready

-- The pools are not answered for in the first tick.
abbrev flaky : ℕ → Node
flaky zero = record (node_of answering) { pool = λ l. none }
flaky (suc n) = node_of answering

flaky-seeds : (i lo hi : ℕ) → Answers ((flaky i).seeded_logs lo hi) (keep (in_blocks lo hi) seeds)
flaky-seeds zero lo hi = refl
flaky-seeds (suc n) lo hi = refl

flaky-swaps : (i lo hi : ℕ) → Answers ((flaky i).swap_logs lo hi) (keep (in_blocks lo hi) swaps)
flaky-swaps zero lo hi = refl
flaky-swaps (suc n) lo hi = refl

ticks_gapless_example :
    Onward start_at seeds swaps settings 9
      (ticks ascii keccak cdf settings true (λ i. true) flaky (λ i. 5_000) 2 store)
ticks_gapless_example =
    ticks_gapless ascii keccak cdf settings start_at seeds swaps (λ i. true) flaky (λ i. 5_000) 2 9
      store flaky-seeds flaky-swaps ready

-- The first tick holds the checkpoint before the window that failed; the second goes through.
held :
    (ticks ascii keccak cdf settings true (λ i. true) flaky (λ i. 5_000) 1 store).store.last_block
    ≡ some 9
unfolding ticks
held = refl

through :
    (ticks ascii keccak cdf settings true (λ i. true) flaky (λ i. 5_000) 2 store).store.last_block
    ≡ some 13
unfolding ticks
through = refl

index_once-InRange_example :
    InRange settings
      (index_once ascii keccak cdf settings true true (flaky 0) 5_000 store 0).block_range
index_once-InRange_example =
    index_once-InRange ascii keccak cdf settings true true (flaky 0) 5_000 0 store (omega arith)
      (inl refl)
