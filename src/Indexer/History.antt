-- ===== src/Indexer/History.antt =====
-- The indexer's price points and checkpoint after any number of ticks
-- (backend/app/indexer/listener.py).
use over_under.Prelude.{ℕ, zero, suc, Bool, true, List, arith, keep}
use over_under.Text.{Text, Unicode}
use over_under.Indexer.Price.{Cdf}
use over_under.Indexer.Plan.{IndexerSettings}
use over_under.Indexer.Checkpoint.{Store}
use over_under.Indexer.Events.{ChainLog}
use over_under.Indexer.Amm.{AmmEvent, Node}
use over_under.Indexer.Tick.{ticks}
use over_under.Indexer.Gapless.{Answers, in_blocks}
use over_under.Indexer.Ready.{Ready, Onward, index_once-Onward}

-- Start with a positive checkpoint, the configured first block and `from` at most one past it, and
-- a price point for every event of the AMM from `from` up to the checkpoint. Then, whatever calls
-- fail in whatever tick, whichever instance leads and whatever the clock says, as long as an
-- answered log query gives the chain's events of the blocks asked for: after any number of ticks
-- the checkpoint is no further back, and every event of the AMM with a condition id from `from` up
-- to it has a price point.
pub ticks_gapless :
    (u : Unicode) (keccak : Text → ℕ) (cdf : Cdf) (s : IndexerSettings) (from : ℕ)
    (seeds swaps : List (ChainLog AmmEvent)) (leads : ℕ → Bool) (node : ℕ → Node) (now : ℕ → ℕ)
    (n c : ℕ) (store : Store)
    → ((i lo hi : ℕ) → Answers ((node i).seeded_logs lo hi) (keep (in_blocks lo hi) seeds))
    → ((i lo hi : ℕ) → Answers ((node i).swap_logs lo hi) (keep (in_blocks lo hi) swaps))
    → Ready from seeds swaps s store c
    → Onward from seeds swaps s c (ticks u keccak cdf s true leads node now n store)
unfolding ticks
ticks_gapless u keccak cdf s from seeds swaps leads node now zero c store p q r =
    (c, omega arith, r)
ticks_gapless u keccak cdf s from seeds swaps leads node now (suc n) c store p q r =
    let b = ticks u keccak cdf s true leads node now n store in
    let i = ticks_gapless u keccak cdf s from seeds swaps leads node now n c store p q r in
    let j =
      index_once-Onward u keccak cdf s from seeds swaps (node n) (now n) (p n) (q n) (leads n)
        b.block_range i.0 b.store i.2 in
    (j.0, omega (arith, i.1, j.1), j.2)
