-- ===== src/Indexer/Events.antt =====
-- The factory's events: markets created and paused (backend/app/indexer/listener.py).
use over_under.Prelude.{
  ℕ, Bool, false, ◌&&◌, ◌||◌, Option, none, some, List, [], ◌∷◌, ltb, leb, ◌==◌, if◌then◌else◌,
}
use over_under.Prelude.Table.{modify, insert_ignore}
use over_under.Text.{Text, Unicode}
use over_under.Market.{Market, market_key, market_type_user}
use over_under.Db.{Db}
use over_under.Listings.Indexed.{index_user_listing}

pub record NewMarket : Type 0 where
  pub condition_id : ℕ
  pub parent_condition_id : ℕ
  pub question : Text
  pub market_type : ℕ
  pub close_time : ℕ
  pub creator : ℕ

pub data FactoryEvent : Type 0 where
  created : NewMarket → FactoryEvent
  paused : ℕ → Bool → FactoryEvent

-- An event with its place in the chain.
pub record ChainLog (E : Type 0) : Type 0 where
  pub block_number : ℕ
  pub log_index : ℕ
  pub event : E

module _ {E : Type 0} where
  -- The order of the pairs (block, log index).
  abbrev pub not_after : ChainLog E → ChainLog E → Bool
  not_after a b =
      ltb a.block_number b.block_number
      || a.block_number == b.block_number && leb a.log_index b.log_index

  abbrev pub insert_log : ChainLog E → List (ChainLog E) → List (ChainLog E)
  insert_log a [] = a ∷ []
  insert_log a (b ∷ logs) = if not_after a b then a ∷ b ∷ logs else b ∷ insert_log a logs

  -- A stable sort.
  abbrev pub sort_logs : List (ChainLog E) → List (ChainLog E)
  sort_logs [] = []
  sort_logs (a ∷ logs) = insert_log a (sort_logs logs)

abbrev pub indexed_market : NewMarket → Market
indexed_market m = record {
  condition_id = m.condition_id;
  parent_condition_id = if m.parent_condition_id == 0 then none else some m.parent_condition_id;
  question = m.question;
  resolution_criteria = [];
  market_type = m.market_type;
  close_time = m.close_time;
  paused = false;
  resolved = false;
}

unfoldable pub set_paused : Bool → Market → Market
set_paused flag m = record m { paused = flag }

module _ (u : Unicode) (keccak : Text → ℕ) (commitments : ℕ → Option (ℕ × ℕ)) (now : ℕ) where
  unfoldable pub index_event : Db → FactoryEvent → Db
  unfolding set_paused index_user_listing
  index_event db (FactoryEvent.created m) =
      let added = record db { markets = insert_ignore market_key (indexed_market m) db.markets } in
      if m.market_type == market_type_user
      then index_user_listing u keccak added m.condition_id
          (record { creator = m.creator; question = m.question; close_time = m.close_time })
          (commitments m.condition_id) now
      else added
  index_event db (FactoryEvent.paused cid flag) = record db {
    markets = modify market_key cid (set_paused flag) db.markets;
  }

  unfoldable pub index_events : Db → List (ChainLog FactoryEvent) → Db
  unfolding index_event
  index_events db [] = db
  index_events db (l ∷ logs) = index_events (index_event db l.event) logs
