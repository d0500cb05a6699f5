-- ===== src/Listings/Prepare.antt =====
-- The prepare route: the gates run and the row is stored before the user's account sends the listing
-- (backend/app/markets/listing.py). keccak over encoded words is a parameter.
pub mod Ends
pub mod Passed
use over_under.Prelude.{
  ℕ, ◌+◌, ◌-◌, ◌*◌, ◌≡◌, Bool, true, false, not, ◌&&◌, ◌||◌, Option, none, some, List, [], ◌∷◌,
  ◌++◌, ltb, leb, ◌==◌, if◌then◌else◌, keep, length,
}
use over_under.Text.{Text, Unicode, strip}
use over_under.Prelude.Table.{find}
use over_under.Market.{Listing, listing_key, ListingStatus, Gate}
use over_under.Db.{Db}
use over_under.Listings.Gates.{Bounds, or_else, validate_listing, check_pending, is_duplicate}
use over_under.Listings.Review.{open_questions, is_prepared}
use over_under.Listings.Confirm.{criteria_hash}

pub record ListingConfig : Type 0 where
  pub permissionless : Bool
  pub oracle : ℕ
  pub listing_fee_usdc : ℕ
  pub bounds : Bounds
  pub cooldown_seconds : ℕ

-- What the reads of the factory answer: `none` where the call fails.
pub record Factory : Type 0 where
  pub config : Option (Option ListingConfig)
  pub lister_allowed : Option Bool
  pub last_listed_at : Option ℕ
  pub user_condition_id : ℕ → ℕ → Option ℕ

pub record Hashes : Type 0 where
  pub keccak : Text → ℕ
  pub keccak_words : List ℕ → ℕ

pub record PrepareIn : Type 0 where
  pub question : Text
  pub resolution_criteria : Text
  pub close_time : ℕ
  pub seed_usdc : ℕ

pub record Calls : Type 0 where
  pub condition_id : ℕ
  pub question_id : ℕ
  pub criteria_hash : ℕ
  pub approve_amount : ℕ

pub data Prepared : Type 0 where
  chain_unavailable not_available invite_only condition_mismatch key_taken : Prepared
  cooling : ℕ → Prepared
  refused : Gate → Prepared
  handed_out : Calls → Prepared

abbrev pub condition_id_for : Hashes → ℕ → ℕ → ℕ
condition_id_for hashes oracle question_id = hashes.keccak_words (oracle ∷ question_id ∷ [])

abbrev pub user_question_id : Hashes → ℕ → ℕ → ℕ
user_question_id hashes creator salt = hashes.keccak_words (creator ∷ salt ∷ [])

unfoldable pub cooldown_remaining : ℕ → ℕ → ℕ → ℕ
cooldown_remaining last_listed_at cooldown_seconds now =
    if last_listed_at == 0 || cooldown_seconds == 0
    then 0
    else last_listed_at + cooldown_seconds - now

-- `_pending_count`; `since` stops at 0, before which nothing was created.
unfoldable pub pending_count : List Listing → ℕ → ℕ → ℕ
pending_count listings creator now =
    length (
      keep (λ l. l.creator == creator && is_prepared l && leb (now - 86_400) l.created_at) listings)

-- `_read_lister_state`: a permissionless factory is not asked for the lister.
abbrev pub lister_state : ListingConfig → Factory → Option (Bool × ℕ)
lister_state cfg factory = elim (if cfg.permissionless then some true else factory.lister_allowed) [
  | none ↦ none
  | some allowed ↦ elim factory.last_listed_at [ none ↦ none | some last ↦ some (allowed, last) ]
]

-- The gates of the route in turn.
unfoldable pub prepare_gate : Unicode → Db → PrepareIn → ℕ → Bounds → ℕ → Option Gate
unfolding validate_listing check_pending pending_count is_duplicate open_questions
prepare_gate u db body creator bounds now =
    or_else
      (validate_listing u (strip u body.question) (strip u body.resolution_criteria) body.close_time
        body.seed_usdc bounds now)
      (or_else (check_pending (pending_count db.listings creator now)) (
        if is_duplicate u (strip u body.question) (open_questions db.markets db.listings now none)
        then some Gate.similar
        else none))

module _ (u : Unicode) (hashes : Hashes) where
  abbrev pub prepared_row : PrepareIn → ℕ → ℕ → ℕ → ℕ → Listing
  prepared_row body cid creator salt now = record {
    condition_id = cid;
    creator = creator;
    salt = some salt;
    question = strip u body.question;
    resolution_criteria = strip u body.resolution_criteria;
    criteria_hash = some (criteria_hash u hashes.keccak (strip u body.resolution_criteria));
    close_time = body.close_time;
    seed_usdc = body.seed_usdc;
    status = ListingStatus.prepared;
    reject_reason = none;
    created_at = now;
  }

  abbrev pub calls_of : PrepareIn → ListingConfig → ℕ → ℕ → ℕ → Calls
  calls_of body cfg creator salt cid = record {
    condition_id = cid;
    question_id = user_question_id hashes creator salt;
    criteria_hash = criteria_hash u hashes.keccak (strip u body.resolution_criteria);
    approve_amount = body.seed_usdc + cfg.listing_fee_usdc;
  }

  -- A key that is taken already fails the insert.
  unfoldable pub store_row :
      Db → PrepareIn → ListingConfig → ℕ → ℕ → ℕ → ℕ → Option Listing → Db × Prepared
  store_row db body cfg creator salt cid now (some old) = (db, Prepared.key_taken)
  store_row db body cfg creator salt cid now none = (
    record db { listings = db.listings ++ prepared_row body cid creator salt now ∷ [] },
    Prepared.handed_out (calls_of body cfg creator salt cid),
  )

  abbrev pub derived_cid : ListingConfig → ℕ → ℕ → ℕ
  derived_cid cfg creator salt =
      condition_id_for hashes cfg.oracle (user_question_id hashes creator salt)

  -- The factory must derive the same condition id.
  unfoldable pub hand_out : Db → PrepareIn → ListingConfig → ℕ → ℕ → ℕ → Option ℕ → Db × Prepared
  unfolding store_row
  hand_out db body cfg creator salt now none = (db, Prepared.chain_unavailable)
  hand_out db body cfg creator salt now (some onchain_cid) =
      let cid = derived_cid cfg creator salt in
      if onchain_cid == cid
      then store_row db body cfg creator salt cid now (find listing_key cid db.listings)
      else (db, Prepared.condition_mismatch)

  unfoldable pub gated :
      Db → PrepareIn → ListingConfig → Factory → ℕ → ℕ → ℕ → Option Gate → Db × Prepared
  unfolding hand_out
  gated db body cfg factory creator salt now (some why) = (db, Prepared.refused why)
  gated db body cfg factory creator salt now none =
      hand_out db body cfg creator salt now (factory.user_condition_id creator salt)

  unfoldable pub prepare_as :
      Db → PrepareIn → ListingConfig → Factory → ℕ → ℕ → ℕ → Option (Bool × ℕ) → Db × Prepared
  unfolding gated prepare_gate cooldown_remaining
  prepare_as db body cfg factory creator salt now none = (db, Prepared.chain_unavailable)
  prepare_as db body cfg factory creator salt now (some (allowed, last)) =
      let remaining = cooldown_remaining last cfg.cooldown_seconds now in
      if not allowed
      then (db, Prepared.invite_only)
      else if ltb 0 remaining
      then (db, Prepared.cooling remaining)
      else gated db body cfg factory creator salt now
          (prepare_gate u db body creator cfg.bounds now)

  unfoldable pub prepare_for :
      Db → PrepareIn → Factory → ℕ → ℕ → ℕ → Option (Option ListingConfig) → Db × Prepared
  unfolding prepare_as
  prepare_for db body factory creator salt now none = (db, Prepared.chain_unavailable)
  prepare_for db body factory creator salt now (some none) = (db, Prepared.not_available)
  prepare_for db body factory creator salt now (some (some cfg)) =
      prepare_as db body cfg factory creator salt now (lister_state cfg factory)

  -- The salt is the random one of the call.
  unfoldable pub listing_prepare : Db → PrepareIn → Factory → ℕ → ℕ → ℕ → Db × Prepared
  unfolding prepare_for
  listing_prepare db body factory creator salt now =
      prepare_for db body factory creator salt now factory.config
