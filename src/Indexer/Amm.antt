-- ===== src/Indexer/Amm.antt =====
-- The AMM's events become price points, and a window's whole work (backend/app/indexer/listener.py).
use over_under.Prelude.{
  ℕ, Bool, true, false, ◌&&◌, Option, none, some, List, [], ◌∷◌, ◌++◌, ◌==◌, any, if◌then◌else◌,
}
use over_under.Text.{Text, Unicode}
use over_under.Db.{Db}
use over_under.Indexer.Price.{Cdf, Pool, PricePoint, pool_price_micros, build_seed_point}
use over_under.Indexer.Checkpoint.{Store}
use over_under.Indexer.Events.{ChainLog, FactoryEvent, sort_logs, index_events}

-- The condition id is `none` in an event without one.
pub data AmmEvent : Type 0 where
  seeded swap : Option ℕ → AmmEvent

-- The answers of the node, `none` where a call fails. What a call for one event answers is a function
-- of the event, for which it is made at most once.
pub record Node : Type 0 where
  pub head : Option ℕ
  pub created_logs : ℕ → ℕ → Option (List (ChainLog FactoryEvent))
  pub paused_logs : ℕ → ℕ → Option (List (ChainLog FactoryEvent))
  pub seeded_logs : ℕ → ℕ → Option (List (ChainLog AmmEvent))
  pub swap_logs : ℕ → ℕ → Option (List (ChainLog AmmEvent))
  pub timestamp : ChainLog AmmEvent → Option ℕ
  pub pool : ChainLog AmmEvent → Option Pool
  pub commitments : ℕ → Option (ℕ × ℕ)

abbrev pub is_at : ℕ → ℕ → ℕ → PricePoint → Bool
is_at cid block log p = p.condition_id == cid && p.block_number == block && p.log_index == log

unfoldable pub point_exists : List PricePoint → ℕ → ℕ → ℕ → Bool
point_exists points cid block log = any (is_at cid block log) points

-- INSERT ... ON CONFLICT DO NOTHING on the key of the event.
unfoldable pub insert_point : List PricePoint → PricePoint → List PricePoint
unfolding point_exists
insert_point points p =
    if point_exists points p.condition_id p.block_number p.log_index
    then points
    else points ++ p ∷ []

abbrev pub condition_of : AmmEvent → Option ℕ
condition_of (AmmEvent.seeded cid) = cid
condition_of (AmmEvent.swap cid) = cid

module _ (cdf : Cdf) (node : Node) where
  -- The point of an event, `none` where the node does not answer.
  abbrev pub swap_point : ChainLog AmmEvent → ℕ → ℕ → Option PricePoint
  swap_point l cid ts = elim (node.pool l) [
    | none ↦ none
    | some pool ↦ some (record {
      condition_id = cid;
      ts = ts;
      block_number = l.block_number;
      log_index = l.log_index;
      yes_price_micros = pool_price_micros cdf pool;
    })
  ]

  abbrev pub point_at : ChainLog AmmEvent → ℕ → ℕ → AmmEvent → Option PricePoint
  point_at l cid ts (AmmEvent.seeded _) = some (build_seed_point cid ts l.block_number l.log_index)
  point_at l cid ts (AmmEvent.swap _) = swap_point l cid ts

  unfoldable pub point_of : ChainLog AmmEvent → ℕ → Option PricePoint
  unfolding pool_price_micros build_seed_point
  point_of l cid = elim (node.timestamp l) [ none ↦ none | some ts ↦ point_at l cid ts l.event ]

  -- The points after one event; `none` ends the window's work.
  abbrev pub insert_made : List PricePoint → Option PricePoint → Option (List PricePoint)
  insert_made points none = none
  insert_made points (some p) = some (insert_point points p)

  unfoldable pub index_log :
      List PricePoint → ChainLog AmmEvent → Option ℕ → Option (List PricePoint)
  unfolding point_of insert_point
  index_log points l none = some points
  index_log points l (some cid) =
      if point_exists points cid l.block_number l.log_index
      then some points
      else insert_made points (point_of l cid)

  -- The loop goes on with the points so far, or ends at an event that the node does not answer for.
  abbrev pub go_through :
      List PricePoint
      → (List PricePoint → List PricePoint × Bool)
      → Option (List PricePoint)
      → List PricePoint × Bool
  go_through points rest none = (points, false)
  go_through points rest (some more) = rest more

  -- The points when the loop ends, and whether it got through.
  unfoldable pub index_logs : List PricePoint → List (ChainLog AmmEvent) → List PricePoint × Bool
  unfolding index_log
  index_logs points [] = (points, true)
  index_logs points (l ∷ logs) =
      go_through points (λ more. index_logs more logs) (index_log points l (condition_of l.event))

  unfoldable pub index_amm :
      List PricePoint
      → Option (List (ChainLog AmmEvent))
      → Option (List (ChainLog AmmEvent))
      → List PricePoint × Bool
  unfolding index_logs
  index_amm points none swaps = (points, false)
  index_amm points (some seeds) none = (points, false)
  index_amm points (some seeds) (some swaps) = index_logs points (sort_logs (seeds ++ swaps))

module _ (u : Unicode) (keccak : Text → ℕ) (cdf : Cdf) (node : Node) (has_amm : Bool)
    (now : ℕ) where
  abbrev pub with_points : Store → Db → List PricePoint × Bool → Store × Bool
  with_points store db (points, ok) = (record store { db = db; points = points }, ok)

  unfoldable pub index_window :
      Store
      → ℕ
      → ℕ
      → Option (List (ChainLog FactoryEvent))
      → Option (List (ChainLog FactoryEvent))
      → Store × Bool
  unfolding index_events index_amm
  index_window store lo hi none pauses = (store, false)
  index_window store lo hi (some creations) none = (store, false)
  index_window store lo hi (some creations) (some pauses) =
      with_points store
        (index_events u keccak node.commitments now store.db (sort_logs (creations ++ pauses)))
        (if has_amm
          then index_amm cdf node store.points (node.seeded_logs lo hi) (node.swap_logs lo hi)
          else (store.points, true))

  unfoldable pub index_range : Store → ℕ → ℕ → Store × Bool
  unfolding index_window
  index_range store lo hi =
      index_window store lo hi (node.created_logs lo hi) (node.paused_logs lo hi)
