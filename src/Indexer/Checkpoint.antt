-- ===== src/Indexer/Checkpoint.antt =====
-- The store that the indexer writes and the checkpoint of its address set
-- (backend/app/indexer/listener.py).
use over_under.Prelude.{ℕ, ◌-◌, min, Option, none, some, List, ltb, ◌==◌, if◌then◌else◌}
use over_under.Db.{Db}
use over_under.Indexer.Price.{PricePoint}
use over_under.Indexer.Plan.{IndexerSettings, anvil_chain_id}

-- The rows of one (factory, AMM) address set: `last_block` is its checkpoint, `legacy` the row of the
-- checkpoint table before it.
pub record Store : Type 0 where
  pub db : Db
  pub points : List PricePoint
  pub last_block : Option ℕ
  pub legacy : Option ℕ

unfoldable pub fresh_last_block : Option ℕ → IndexerSettings → ℕ → ℕ
fresh_last_block legacy s head =
    if ltb 0 s.start_block
    then s.start_block - 1
    else if s.chain_id == anvil_chain_id
    then 0
    else elim legacy [
      | none ↦ head - s.lookback_blocks
      | some last ↦
          if ltb 0 last then min last (head - s.lookback_blocks) else head - s.lookback_blocks
    ]

unfoldable pub load_checkpoint : Store → IndexerSettings → ℕ → Store × ℕ
unfolding fresh_last_block
load_checkpoint store s head = elim store.last_block [
  | some current ↦ (store, current)
  | none ↦ (
    record store { last_block = some (fresh_last_block store.legacy s head) },
    fresh_last_block store.legacy s head,
  )
]

abbrev pub moved : ℕ → Option ℕ → Option ℕ
moved block none = none
moved block (some last) = if ltb last block then some block else some last

unfoldable pub advance_checkpoint : Store → ℕ → Store
advance_checkpoint store block = record store { last_block = moved block store.last_block }
