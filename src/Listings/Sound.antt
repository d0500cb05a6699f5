-- ===== src/Listings/Sound.antt =====
-- What a stored listing stands for, and what a passed review says (backend/app/markets/visibility.py).
pub mod Confirming
pub mod Preparing
pub mod Indexing
pub mod Runs
use over_under.Prelude.{
  ℕ, ◌≡◌, refl, sym, ap, subst, ◌∙◌, ◌⊎◌, inl, inr, Bool, true, false, not, ◌&&◌, Option, none,
  some, List, [], ◌∷◌, arith, ◌==◌, ==_iff, if◌then◌else◌, Bool-cases, Option-cases, All,
  All-append,
}
use over_under.Prelude.Table.{
  find, Keyed, modify-Keyed, append-Keyed, insert_ignore-Keyed, insert_ignore-All, insert_ignore,
  All-modify, All-modify_found, find-insert_ignore, kept, find-All,
}
use over_under.Text.{Text, Unicode, strip, same_text}
use over_under.Text.Laws.{same_text_eq, strip_idem}
use over_under.Market.{
  Market, Listing, ListingStatus, Gate, listing_key, market_type_user, unconfirmed,
}
use over_under.Db.{Db}
use over_under.Listings.Gates.{
  or_else, refuse_if, check_criteria, check_question, check_listed_question, is_duplicate,
}
use over_under.Listings.Review.{review_user_listing, open_questions, prepared_gate}
use over_under.Listings.Confirm.{
  OnChain, ChainRead, Confirmed, criteria_hash, choose, candidates, confirm_with, confirm_review,
  apply_confirm, confirm_listing, outcome_of, listing_confirm, bare_listing,
}
use over_under.Listings.Prepare.{
  Hashes, PrepareIn, Factory, ListingConfig, Prepared, listing_prepare, prepare_as, hand_out,
  prepared_row, lister_state, prepare_gate, cooldown_remaining,
}
use over_under.Listings.Indexed.{
  Created, index_user_listing, index_listing, with_listing, settle, is_settled, is_blank,
  turned_down, published, unverified, write_listing,
}

pub or_else-none : (a b : Option Gate) → or_else a b ≡ none → (a ≡ none) × (b ≡ none)
or_else-none none b h = (refl, h)
or_else-none (some why) b h = absurd (ground arith)

module _ (u : Unicode) (keccak : Text → ℕ) where
  -- The criteria text is the one that the hash commits to, and the texts pass the gates.
  abbrev pub Verified : Listing → Type 0
  Verified l =
      (l.criteria_hash ≡ some (criteria_hash u keccak l.resolution_criteria))
      × (check_criteria l.resolution_criteria ≡ none)
      × (strip u l.question ≡ l.question)
      × (check_question u l.question ≡ none)

  -- A row's criteria text is trimmed, and a confirmed row is verified.
  abbrev pub Sound : Listing → Type 0
  Sound l =
      (strip u l.resolution_criteria ≡ l.resolution_criteria)
      × ((unconfirmed (some l) ≡ true) ⊎ Verified l)

  -- Each condition id has one row, and every row is sound.
  abbrev pub ListingsSound : List Listing → Type 0
  ListingsSound rows = Keyed listing_key rows × All Sound rows

  -- What a passed review says.
  pub review_passed :
      (markets : List Market) (listings : List Listing) (cid : ℕ) (listing : Option Listing)
      (question : Text) (close_time : ℕ) (seed_usdc : Option ℕ) (criteria : Text) (now : ℕ)
      → review_user_listing u markets listings cid listing question close_time seed_usdc criteria
          now
        ≡ none
      → (prepared_gate listing question close_time seed_usdc ≡ none)
        × (check_criteria criteria ≡ none)
        × (strip u question ≡ question)
        × (check_question u question ≡ none)
        × (is_duplicate u question (open_questions markets listings now (some cid)) ≡ false)
  unfolding review_user_listing check_listed_question
  review_passed markets listings cid listing question close_time seed_usdc criteria now h =
      let corpus = open_questions markets listings now (some cid) in
      let p = refuse_if (not (same_text question (strip u question))) Gate.padded in
      let d = refuse_if (is_duplicate u question corpus) Gate.similar in
      let x = or_else-none (prepared_gate listing question close_time seed_usdc) _ h in
      let y = or_else-none (check_criteria criteria) _ x.1 in
      let z = or_else-none p _ y.1 in
      let w = or_else-none (check_question u question) d z.1 in
      (
        x.0,
        y.0,
        ground (arith, same_text_eq question (strip u question), z.0),
        w.0,
        ground (arith, w.1),
      )
