-- ===== src/Listings/Confirm.antt =====
-- The confirm route: a listing that the factory reports goes public or is rejected
-- (backend/app/markets/listing.py). keccak is a parameter.
pub mod Ends
use over_under.Prelude.{
  ℕ, ◌≡◌, Bool, true, false, not, ◌&&◌, Option, none, some, List, [], ◌∷◌, ◌++◌, ◌==◌,
  if◌then◌else◌,
}
use over_under.Prelude.Table.{find, modify, insert_ignore}
use over_under.Text.{Text, Unicode, strip}
use over_under.Market.{
  Market, Listing, ListingStatus, Gate, market_key, listing_key, market_type_user,
}
use over_under.Db.{Db}
use over_under.Listings.Review.{review_user_listing}

-- What `_read_confirm_state` reads; the last three columns are read for a user's market only.
pub record OnChain : Type 0 where
  pub market_type : ℕ
  pub question : Text
  pub close_time : ℕ
  pub paused : Bool
  pub creator : ℕ
  pub criteria_hash : ℕ
  pub seed_usdc : ℕ

pub data ChainRead : Type 0 where
  unreachable missing : ChainRead
  reported : OnChain → ChainRead

pub data Confirmed : Type 0 where
  chain_unavailable not_on_chain not_user_listed not_creator : Confirmed
  criteria_required hash_mismatch : Confirmed
  listing_rejected : Gate → Confirmed
  public : Confirmed

-- The HTTP status of the answer.
abbrev pub confirm_status : Confirmed → ℕ
confirm_status Confirmed.chain_unavailable = 503
confirm_status Confirmed.not_on_chain = 409
confirm_status Confirmed.not_user_listed = 403
confirm_status Confirmed.not_creator = 403
confirm_status Confirmed.criteria_required = 400
confirm_status Confirmed.hash_mismatch = 409
confirm_status (Confirmed.listing_rejected why) = 422
confirm_status Confirmed.public = 200

abbrev pub market_row : ℕ → OnChain → Market
market_row cid onchain = record {
  condition_id = cid;
  parent_condition_id = none;
  question = onchain.question;
  resolution_criteria = [];
  market_type = market_type_user;
  close_time = onchain.close_time;
  paused = onchain.paused;
  resolved = false;
}

-- A row that the backend did not prepare.
abbrev pub bare_listing : ℕ → ℕ → Text → ℕ → ℕ → Listing
bare_listing cid creator question close_time created_at = record {
  condition_id = cid;
  creator = creator;
  salt = none;
  question = question;
  resolution_criteria = [];
  criteria_hash = none;
  close_time = close_time;
  seed_usdc = 0;
  status = ListingStatus.indexed;
  reject_reason = none;
  created_at = created_at;
}

unfoldable pub confirm_market : OnChain → Text → Option Gate → Market → Market
confirm_market onchain criteria reason m = record m {
  question = onchain.question;
  market_type = market_type_user;
  close_time = onchain.close_time;
  paused = onchain.paused;
  resolution_criteria = elim reason [ none ↦ criteria | some why ↦ [] ];
}

unfoldable pub confirm_listing : OnChain → Text → Option Gate → Listing → Listing
confirm_listing onchain criteria none l = record l {
  creator = onchain.creator;
  criteria_hash = some onchain.criteria_hash;
  question = onchain.question;
  resolution_criteria = criteria;
  close_time = onchain.close_time;
  seed_usdc = onchain.seed_usdc;
  status = ListingStatus.confirmed;
  reject_reason = none;
}
confirm_listing onchain criteria (some why) l = record l {
  creator = onchain.creator;
  criteria_hash = some onchain.criteria_hash;
  status = ListingStatus.rejected;
  reject_reason = some why;
}

unfoldable pub apply_confirm : Db → ℕ → OnChain → Text → Option Gate → ℕ → Db
unfolding confirm_market confirm_listing
apply_confirm db cid onchain criteria reason now = record db {
  markets =
      modify market_key cid (confirm_market onchain criteria reason)
        (insert_ignore market_key (market_row cid onchain) db.markets);
  listings = modify listing_key cid (confirm_listing onchain criteria reason) (
      insert_ignore listing_key
        (bare_listing cid onchain.creator onchain.question onchain.close_time now) db.listings);
}

abbrev pub nonempty : Text → List Text → List Text
nonempty [] texts = texts
nonempty (c ∷ t) texts = (c ∷ t) ∷ texts

abbrev pub outcome_of : Option Gate → Confirmed
outcome_of none = Confirmed.public
outcome_of (some why) = Confirmed.listing_rejected why

abbrev pub confirm_review : Unicode → Db → ℕ → OnChain → Text → ℕ → Option Gate
confirm_review u db cid onchain criteria now =
    review_user_listing u db.markets db.listings cid (find listing_key cid db.listings)
      onchain.question onchain.close_time (some onchain.seed_usdc) criteria now

-- The listing's own criteria, then the body's; a body without criteria is the empty text.
unfoldable pub candidates : Unicode → Option Listing → Text → List Text
candidates u none body = nonempty (strip u body) []
candidates u (some l) body = nonempty l.resolution_criteria (nonempty (strip u body) [])

module _ (u : Unicode) (keccak : Text → ℕ) where
  abbrev pub criteria_hash : Text → ℕ
  criteria_hash criteria = keccak (strip u criteria)

  -- The first text with the hash.
  unfoldable pub choose : ℕ → List Text → Option Text
  choose hash [] = none
  choose hash (t ∷ texts) = if criteria_hash t == hash then some t else choose hash texts

  unfoldable pub confirm_with : Db → ℕ → OnChain → ℕ → List Text → Option Text → Db × Confirmed
  unfolding apply_confirm review_user_listing
  confirm_with db cid onchain now [] chosen = (db, Confirmed.criteria_required)
  confirm_with db cid onchain now (t ∷ texts) none = (db, Confirmed.hash_mismatch)
  confirm_with db cid onchain now (t ∷ texts) (some criteria) =
      let reason = confirm_review u db cid onchain criteria now in
      (apply_confirm db cid onchain criteria reason now, outcome_of reason)

  unfoldable pub listing_confirm : Db → ChainRead → ℕ → ℕ → Text → ℕ → Db × Confirmed
  unfolding confirm_with choose candidates
  listing_confirm db ChainRead.unreachable cid account body now = (db, Confirmed.chain_unavailable)
  listing_confirm db ChainRead.missing cid account body now = (db, Confirmed.not_on_chain)
  listing_confirm db (ChainRead.reported onchain) cid account body now =
      if not (onchain.market_type == market_type_user)
      then (db, Confirmed.not_user_listed)
      else if not (onchain.creator == account)
      then (db, Confirmed.not_creator)
      else confirm_with db cid onchain now texts (choose onchain.criteria_hash texts)
    where
      texts : List Text
      texts = candidates u (find listing_key cid db.listings) body
