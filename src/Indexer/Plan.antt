-- ===== src/Indexer/Plan.antt =====
-- Which blocks a tick reads, in which windows, and how long the loop sleeps
-- (backend/app/indexer/listener.py).
use over_under.Prelude.{
  ℕ, suc, zero, ◌+◌, ◌-◌, ◌*◌, ◌^◌, min, max, Bool, ◌||◌, List, [], ◌∷◌, ltb, leb, ◌==◌,
  if◌then◌else◌,
}

pub record IndexerSettings : Type 0 where
  pub chain_id : ℕ
  pub start_block : ℕ
  pub lookback_blocks : ℕ
  pub max_block_range : ℕ
  pub min_block_range : ℕ
  pub max_chunks_per_tick : ℕ

abbrev pub anvil_chain_id : ℕ
anvil_chain_id = 31337

unfoldable pub resolve_start_block : ℕ → ℕ → ℕ → ℕ → ℕ → ℕ
resolve_start_block last_block start_block head chain_id lookback = max (last_block + 1) floor
  where
    floor : ℕ
    floor =
        if ltb 0 start_block
        then start_block
        else if chain_id == anvil_chain_id || ltb 0 last_block
        then 1
        else max 1 (head + 1 - lookback)

-- The loop of `plan_ranges`, which adds at most so many windows.
unfoldable pub windows : ℕ → ℕ → ℕ → ℕ → List (ℕ × ℕ)
windows lo end max_range zero = []
windows lo end max_range (suc chunks) =
    let hi = min (lo + max_range - 1) end in
    let rest = windows (hi + 1) end max_range chunks in if leb lo end then (lo, hi) ∷ rest else []

unfoldable pub plan_ranges : ℕ → ℕ → ℕ → ℕ → List (ℕ × ℕ)
unfolding windows
plan_ranges start end max_range max_chunks =
    if ltb end start || max_range == 0 || max_chunks == 0
    then []
    else windows start end max_range max_chunks

-- The delays are multiples of one unit of time; the source's floats are doubled without rounding.
unfoldable pub next_delay : ℕ → ℕ → ℕ → ℕ
next_delay interval failures max_backoff =
    if failures == 0 then interval else min max_backoff (interval * 2 ^ min failures 16)

-- A round of `run_indexer_loop`: the failures so far and how long it sleeps.
unfoldable pub after_round : ℕ → ℕ → Bool → ℕ → ℕ × ℕ
unfolding next_delay
after_round interval max_backoff ok failures =
    let now_failed = if ok then 0 else failures + 1 in
    (now_failed, next_delay interval now_failed max_backoff)
