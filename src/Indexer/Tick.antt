-- ===== src/Indexer/Tick.antt =====
-- A tick of the indexer: windows from the checkpoint on, each committed by the checkpoint
-- (backend/app/indexer/listener.py).
use over_under.Prelude.{
  ℕ, zero, suc, ◌+◌, ◌-◌, ◌*◌, ◌/◌, min, max, Bool, true, false, Option, none, some, List, [], ◌∷◌,
  ◌==◌, if◌then◌else◌,
}
use over_under.Text.{Text, Unicode}
use over_under.Indexer.Price.{Cdf}
use over_under.Indexer.Plan.{IndexerSettings, resolve_start_block, plan_ranges}
use over_under.Indexer.Checkpoint.{Store, load_checkpoint, advance_checkpoint}
use over_under.Indexer.Amm.{Node, index_range}

-- What a tick leaves: the store, the window that the next one begins with (0 for none yet), and
-- whether the caller may go on without backing off.
pub record Tick : Type 0 where
  pub store : Store
  pub block_range : ℕ
  pub ok : Bool

-- `_STATE.block_range or settings.indexer_max_block_range`
abbrev pub window_of : IndexerSettings → ℕ → ℕ
window_of s block_range = if block_range == 0 then s.max_block_range else block_range

module _ (u : Unicode) (keccak : Text → ℕ) (cdf : Cdf) (s : IndexerSettings) (has_amm : Bool) where
  -- A window that fails ends the tick and halves the next one's size; one that is done moves the
  -- checkpoint.
  unfoldable pub after_window : ℕ → ℕ → (Store → Tick) → Store × Bool → Tick
  unfolding advance_checkpoint
  after_window lo hi go_on (after, false) = record {
    store = advance_checkpoint after (lo - 1);
    block_range = max s.min_block_range ((hi + 1 - lo) / 2);
    ok = false;
  }
  after_window lo hi go_on (after, true) = go_on (advance_checkpoint after hi)

  -- The windows in turn; `window` is the size they were planned with.
  unfoldable pub run_windows : Node → ℕ → ℕ → Store → List (ℕ × ℕ) → Tick
  unfolding after_window index_range
  run_windows node now window store [] = record {
    store = store;
    block_range = min s.max_block_range (window * 2);
    ok = true;
  }
  run_windows node now window store ((lo, hi) ∷ rest) =
      after_window lo hi (λ after. run_windows node now window after rest)
        (index_range u keccak cdf node has_amm now store lo hi)

  abbrev pub run_from : Node → ℕ → ℕ → ℕ → Store × ℕ → Tick
  run_from node now window head (store, last_block) = run_windows node now window store (
      plan_ranges (resolve_start_block last_block s.start_block head s.chain_id s.lookback_blocks)
        head window s.max_chunks_per_tick)

  unfoldable pub at_head : Node → ℕ → Store → ℕ → Option ℕ → Tick
  unfolding run_windows resolve_start_block plan_ranges load_checkpoint
  at_head node now store block_range none = record {
    store = store;
    block_range = block_range;
    ok = false;
  }
  at_head node now store block_range (some head) =
      run_from node now (window_of s block_range) head (load_checkpoint store s head)

  -- A process without the contracts or without the leader's lock does nothing.
  unfoldable pub index_once : Bool → Node → ℕ → Store → ℕ → Tick
  unfolding at_head
  index_once leads node now store block_range =
      if leads
      then at_head node now store block_range node.head
      else record { store = store; block_range = block_range; ok = true }

  -- Tick after tick; `leads`, `node` and `now` give what the tick with that number meets.
  unfoldable pub ticks : (ℕ → Bool) → (ℕ → Node) → (ℕ → ℕ) → ℕ → Store → Tick
  unfolding index_once
  ticks leads node now zero store = record { store = store; block_range = 0; ok = true }
  ticks leads node now (suc n) store =
      let before = ticks leads node now n store in
      index_once (leads n) (node n) (now n) before.store before.block_range
