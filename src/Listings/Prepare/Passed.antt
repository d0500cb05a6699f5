-- ===== src/Listings/Prepare/Passed.antt =====
-- What a listing that the prepare route of backend/app/markets/listing.py stores has passed, and the row
-- and the answer that are made of it.
pub mod Gates
use over_under.Prelude.{
  ℕ, ◌+◌, ◌≤◌, ◌≡◌, ap, ◌⊎◌, inl, inr, true, false, none, some, [], ◌∷◌, ◌++◌, ◌==◌, arith,
  Bool-cases,
}
use over_under.Prelude.Table.{find}
use over_under.Text.{Unicode, strip}
use over_under.Market.{Listing, ListingStatus, listing_key}
use over_under.Db.{Db}
use over_under.Listings.Prepare.{
  Hashes, PrepareIn, Factory, ListingConfig, Calls, Prepared, lister_state, cooldown_remaining,
  store_row, listing_prepare, prepared_row, calls_of, derived_cid,
}
use over_under.Listings.Prepare.Ends.{is_given, Stored, prepare_cases}
use over_under.Listings.Prepare.Passed.Gates.{Passes, prepare_gate-none}

may_list :
    (cfg : ListingConfig) (factory : Factory) (last : ℕ)
    → lister_state cfg factory ≡ some (true, last)
    → ((cfg.permissionless ≡ true) ⊎ (factory.lister_allowed ≡ some true))
      × (factory.last_listed_at ≡ some last)
may_list cfg factory last h = elim (Bool-cases cfg.permissionless) [
  | inl e ↦ (inl e, ground (arith, e, h))
  | inr e ↦ (inr (ground (arith, e, h)), ground (arith, e, h))
]

cooled_lem :
    (last cooldown now : ℕ)
    → cooldown_remaining last cooldown now ≡ 0
    → (last ≡ 0) ⊎ (cooldown ≡ 0) ⊎ (last + cooldown ≤ now)
unfolding cooldown_remaining
cooled_lem last cooldown now h = elim (Bool-cases (last == 0)) [
  | inl e ↦ inl (ground (arith, e))
  | inr a ↦ elim (Bool-cases (cooldown == 0)) [
    | inl e ↦ inr (inl (ground (arith, e)))
    | inr b ↦ inr (inr (ground (arith, a, b, h)))
  ]
]

module _ (u : Unicode) (hashes : Hashes) (db : Db) (body : PrepareIn) (creator salt now : ℕ) where
  -- The row that is stored.
  pub record IsRow (cfg : ListingConfig) (row : Listing) : Type 0 where
    pub condition_is :
        row.condition_id
        ≡ hashes.keccak_words (cfg.oracle ∷ hashes.keccak_words (creator ∷ salt ∷ []) ∷ [])
    pub creator_is : row.creator ≡ creator
    pub salt_is : row.salt ≡ some salt
    pub question_is : row.question ≡ strip u body.question
    pub criteria_is : row.resolution_criteria ≡ strip u body.resolution_criteria
    pub hash_is :
        row.criteria_hash ≡ some (hashes.keccak (strip u (strip u body.resolution_criteria)))
    pub close_is : row.close_time ≡ body.close_time
    pub seed_is : row.seed_usdc ≡ body.seed_usdc
    pub status_is : row.status ≡ ListingStatus.prepared
    pub unrejected : row.reject_reason ≡ none
    pub created_is : row.created_at ≡ now

  -- What the client is told to send.
  pub record IsCalls (cfg : ListingConfig) (row : Listing) (calls : Calls) : Type 0 where
    pub condition_same : calls.condition_id ≡ row.condition_id
    pub question_id_is : calls.question_id ≡ hashes.keccak_words (creator ∷ salt ∷ [])
    pub hash_same : some calls.criteria_hash ≡ row.criteria_hash
    pub approve_is : calls.approve_amount ≡ body.seed_usdc + cfg.listing_fee_usdc

  pub record Given (factory : Factory) (r : Db × Prepared) : Type 0 where
    pub cfg : ListingConfig
    pub config_is : factory.config ≡ some (some cfg)
    pub last : ℕ
    pub last_is : factory.last_listed_at ≡ some last
    pub lister : (cfg.permissionless ≡ true) ⊎ (factory.lister_allowed ≡ some true)
    pub cooled : (last ≡ 0) ⊎ (cfg.cooldown_seconds ≡ 0) ⊎ (last + cfg.cooldown_seconds ≤ now)
    pub passed : Passes u db body creator cfg.bounds now
    pub row : Listing
    pub row_is : IsRow cfg row
    pub derived : factory.user_condition_id creator salt ≡ some row.condition_id
    pub fresh : find listing_key row.condition_id db.listings ≡ none
    pub stored : r.0 ≡ record db { listings = db.listings ++ row ∷ [] }
    pub calls : Calls
    pub answered : r.1 ≡ Prepared.handed_out calls
    pub calls_are : IsCalls cfg row calls

  abbrev pub Writes : Factory → Db × Prepared → Type 0
  Writes factory r = Given factory r ⊎ ((r.0 ≡ db) × (is_given r.1 ≡ false))

  Given-Stored :
      (factory : Factory) (r : Db × Prepared)
      → Stored u hashes db body creator salt now factory r
      → Given factory r
  unfolding store_row
  Given-Stored factory r s =
      let (lister, listed) = may_list s.cfg factory s.last s.allowed in
      record {
        cfg = s.cfg;
        config_is = s.config_is;
        last = s.last;
        last_is = listed;
        lister = lister;
        cooled = cooled_lem s.last s.cfg.cooldown_seconds now s.cool;
        passed = prepare_gate-none u db body creator s.cfg.bounds now s.passed;
        row = prepared_row u hashes body (derived_cid u hashes s.cfg creator salt) creator salt now;
        row_is = ground arith;
        derived = s.derived;
        fresh = s.fresh;
        stored = ap (λ (p : Db × Prepared). p.0) s.result_is;
        calls = calls_of u hashes body s.cfg creator salt (derived_cid u hashes s.cfg creator salt);
        answered = ap (λ (p : Db × Prepared). p.1) s.result_is;
        calls_are = ground arith;
      }

  -- The prepare route either hands nothing out and writes nothing, or adds one row and changes nothing
  -- else. Then: the factory takes listings from anyone or allows this lister, whose cooldown is over, if
  -- there is one; the stripped question has 10 to 256 bytes, ends in a question mark and has no banned
  -- word; the stripped criteria have 20 to 2000 characters; the closing time and the seed are within
  -- their bounds; the creator prepared fewer than five listings within a day that are prepared still; the
  -- question repeats no open one; the factory derives the row's condition id, which no row had before.
  -- The row holds the call's texts, times and hashes in status `prepared`, and the answer names its
  -- condition id and criteria hash, and approves the seed and the fee.
  pub prepare-Writes :
      (factory : Factory)
      → Writes factory (listing_prepare u hashes db body factory creator salt now)
  prepare-Writes factory = elim (prepare_cases u hashes db body creator salt now factory) [
    | inl s ↦ inl (Given-Stored factory _ s)
    | inr e ↦ inr e
  ]
