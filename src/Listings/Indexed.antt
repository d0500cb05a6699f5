-- ===== src/Listings/Indexed.antt =====
-- The indexer's record of a user's market (`_index_user_listing` of backend/app/indexer/listener.py).
use over_under.Prelude.{
  ℕ, Bool, true, false, not, ◌&&◌, Option, none, some, List, [], ◌∷◌, ◌==◌, if◌then◌else◌,
}
use over_under.Prelude.Table.{find, modify, insert_ignore}
use over_under.Text.{Text, Unicode, strip}
use over_under.Market.{Market, Listing, ListingStatus, Gate, market_key, listing_key}
use over_under.Db.{Db}
use over_under.Listings.Review.{review_user_listing, is_backend_prepared}
use over_under.Listings.Confirm.{bare_listing}

-- The arguments of a MarketCreated event of type 2.
pub record Created : Type 0 where
  pub creator : ℕ
  pub question : Text
  pub close_time : ℕ

abbrev pub is_settled : ListingStatus → Bool
is_settled ListingStatus.confirmed = true
is_settled ListingStatus.rejected = true
is_settled _ = false

abbrev pub is_blank : Text → Bool
is_blank [] = true
is_blank (c ∷ t) = false

abbrev pub unverified : ℕ → ℕ → Listing → Listing
unverified hash seed l = record l {
  criteria_hash = some hash;
  seed_usdc = if is_backend_prepared (some l) then l.seed_usdc else seed;
}

abbrev pub turned_down : ℕ → Gate → Listing → Listing
turned_down hash why l = record l {
  criteria_hash = some hash;
  status = ListingStatus.rejected;
  reject_reason = some why;
}

abbrev pub published : Created → ℕ → ℕ → Text → Listing → Listing
published args hash seed criteria l = record l {
  criteria_hash = some hash;
  question = args.question;
  close_time = args.close_time;
  seed_usdc = seed;
  status = ListingStatus.confirmed;
  reject_reason = none;
}

unfoldable pub set_criteria : Text → Market → Market
set_criteria criteria m = record m { resolution_criteria = criteria }

abbrev pub write_listing : Db → List Listing → ℕ → (Listing → Listing) → Db
write_listing db listings cid f = record db { listings = modify listing_key cid f listings }

module _ (u : Unicode) (keccak : Text → ℕ) where
  -- The review's answer, on rows that already hold the listing.
  unfoldable pub settle : Db → List Listing → ℕ → Created → ℕ → ℕ → Text → Option Gate → Db
  unfolding set_criteria
  settle db listings cid args hash seed criteria (some why) =
      write_listing db listings cid (turned_down hash why)
  settle db listings cid args hash seed criteria none = record db {
    listings = modify listing_key cid (published args hash seed criteria) listings;
    markets = modify market_key cid (set_criteria criteria) db.markets;
  }

  unfoldable pub index_listing : Db → List Listing → ℕ → Listing → Created → ℕ → Option (ℕ × ℕ) → Db
  unfolding settle review_user_listing is_backend_prepared
  index_listing db listings cid l args now none = record db { listings = listings }
  index_listing db listings cid l args now (some (hash, seed)) =
      let criteria = strip u l.resolution_criteria in
      if not (is_blank criteria) && keccak criteria == hash
      then settle db listings cid args hash seed criteria (
          review_user_listing u db.markets listings cid (some l) args.question args.close_time
            (some seed) criteria now)
      else write_listing db listings cid (unverified hash seed)

  unfoldable pub with_listing :
      Db → List Listing → ℕ → Created → ℕ → Option (ℕ × ℕ) → Option Listing → Db
  unfolding index_listing
  with_listing db listings cid args now commitments none = record db { listings = listings }
  with_listing db listings cid args now commitments (some l) =
      if is_settled l.status
      then record db { listings = listings }
      else index_listing db listings cid l args now commitments

  -- The commitments are `none` where their read fails.
  unfoldable pub index_user_listing : Db → ℕ → Created → Option (ℕ × ℕ) → ℕ → Db
  unfolding with_listing
  index_user_listing db cid args commitments now =
      let listings =
        insert_ignore listing_key (bare_listing cid args.creator args.question args.close_time now)
          db.listings in
      with_listing db listings cid args now commitments (find listing_key cid listings)
