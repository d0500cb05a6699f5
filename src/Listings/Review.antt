-- ===== src/Listings/Review.antt =====
-- Which markets the public API shows, and the review of a listing that the confirm route and the
-- indexer share (backend/app/markets/visibility.py).
use over_under.Prelude.{
  ℕ, Bool, true, false, not, ◌&&◌, ◌||◌, Option, none, some, List, ltb, ◌==◌, map, keep,
  if◌then◌else◌,
}
use over_under.Prelude.Table.{find}
use over_under.Text.{Text, Unicode}
use over_under.Market.{
  Market, Listing, ListingStatus, Gate, listing_key, market_type_user, unconfirmed,
}
use over_under.Listings.Gates.{or_else, prepared_mismatch, check_criteria, check_listed_question}

unfoldable pub is_listed : List Listing → Market → Bool
is_listed listings m =
    not (m.market_type == market_type_user)
    || not (unconfirmed (find listing_key m.condition_id listings))

-- `visible_clause`
unfoldable pub is_visible : List Listing → Market → Bool
unfolding is_listed
is_visible listings m = not m.paused && is_listed listings m

-- `exclude_cid` is `none` where the caller leaves it out.
abbrev pub excluded : Option ℕ → ℕ → Bool
excluded none cid = false
excluded (some exclude_cid) cid = cid == exclude_cid

abbrev pub in_corpus : List Listing → ℕ → Option ℕ → Market → Bool
unfolding is_visible
in_corpus listings now exclude_cid m =
    not m.resolved
    && is_visible listings m
    && ltb now m.close_time
    && not (excluded exclude_cid m.condition_id)

unfoldable pub open_questions : List Market → List Listing → ℕ → Option ℕ → List Text
open_questions markets listings now exclude_cid =
    map (λ m. m.question) (keep (in_corpus listings now exclude_cid) markets)

abbrev pub has_salt : Listing → Bool
has_salt l = elim l.salt [ none ↦ false | some salt ↦ true ]

abbrev pub is_prepared : Listing → Bool
is_prepared l = elim l.status [ ListingStatus.prepared ↦ true | _ ↦ false ]

unfoldable pub is_backend_prepared : Option Listing → Bool
is_backend_prepared none = false
is_backend_prepared (some l) = has_salt l || is_prepared l

-- What the chain says of the listing against what was prepared.
unfoldable pub prepared_gate : Option Listing → Text → ℕ → Option ℕ → Option Gate
unfolding is_backend_prepared prepared_mismatch
prepared_gate none question close_time seed_usdc = none
prepared_gate (some l) question close_time seed_usdc =
    if is_backend_prepared (some l)
    then prepared_mismatch l.question l.close_time l.seed_usdc question close_time seed_usdc
    else none

module _ (u : Unicode) where
  unfoldable pub review_user_listing :
      List Market → List Listing → ℕ → Option Listing → Text → ℕ → Option ℕ → Text → ℕ → Option Gate
  unfolding prepared_gate check_criteria check_listed_question open_questions
  review_user_listing markets listings cid listing question close_time seed_usdc criteria now =
      or_else (prepared_gate listing question close_time seed_usdc) (
        or_else (check_criteria criteria)
          (check_listed_question u question (open_questions markets listings now (some cid))))
