-- ===== src/Listings/Prepare/Ends.antt =====
-- The ways in which the prepare route of backend/app/markets/listing.py can end.
use over_under.Prelude.{
  ℕ, ◌≡◌, refl, ap, ◌∙◌, ◌⊎◌, inl, inr, Bool, true, false, Option, none, some, ltb, arith, ◌==◌,
  Bool-cases,
}
use over_under.Prelude.Table.{find}
use over_under.Text.{Unicode}
use over_under.Market.{Listing, Gate, listing_key}
use over_under.Db.{Db}
use over_under.Listings.Prepare.{
  Hashes, PrepareIn, Factory, ListingConfig, Prepared, listing_prepare, prepare_as, hand_out,
  store_row, gated, prepare_for, derived_cid, lister_state, prepare_gate, cooldown_remaining,
}

-- The answers that store no row.
abbrev pub is_given : Prepared → Bool
is_given (Prepared.handed_out calls) = true
is_given _ = false

same_id : (a b : ℕ) → (a == b) ≡ true → a ≡ b
same_id a b e = ground arith

module _ (u : Unicode) (hashes : Hashes) (db : Db) (body : PrepareIn) (creator salt now : ℕ) where
  -- The one way in which a row is stored.
  pub record Stored (factory : Factory) (r : Db × Prepared) : Type 0 where
    pub cfg : ListingConfig
    pub config_is : factory.config ≡ some (some cfg)
    pub last : ℕ
    pub allowed : lister_state cfg factory ≡ some (true, last)
    pub cool : cooldown_remaining last cfg.cooldown_seconds now ≡ 0
    pub passed : prepare_gate u db body creator cfg.bounds now ≡ none
    pub derived :
        factory.user_condition_id creator salt ≡ some (derived_cid u hashes cfg creator salt)
    pub fresh : find listing_key (derived_cid u hashes cfg creator salt) db.listings ≡ none
    pub result_is :
        r
        ≡ store_row u hashes db body cfg creator salt
            (derived_cid u hashes cfg creator salt)
            now
            none

  abbrev pub Ends : Factory → Db × Prepared → Type 0
  Ends factory r = Stored factory r ⊎ ((r.0 ≡ db) × (is_given r.1 ≡ false))

  module _ (factory : Factory) (cfg : ListingConfig) (c : factory.config ≡ some (some cfg))
      (last : ℕ) (n : lister_state cfg factory ≡ some (true, last))
      (w : cooldown_remaining last cfg.cooldown_seconds now ≡ 0)
      (p : prepare_gate u db body creator cfg.bounds now ≡ none) where
    store_row_cases :
        (o : Option Listing)
        → factory.user_condition_id creator salt ≡ some (derived_cid u hashes cfg creator salt)
        → find listing_key (derived_cid u hashes cfg creator salt) db.listings ≡ o
        → Ends factory (
            store_row u hashes db body cfg creator salt
              (derived_cid u hashes cfg creator salt)
              now
              o)
    unfolding store_row
    store_row_cases (some old) y e = inr (refl, refl)
    store_row_cases none y e = inl (record {
      cfg = cfg;
      config_is = c;
      last = last;
      allowed = n;
      cool = w;
      passed = p;
      derived = y;
      fresh = e;
      result_is = refl;
    })

    hand_out_cases :
        (o : Option ℕ)
        → factory.user_condition_id creator salt ≡ o
        → Ends factory (hand_out u hashes db body cfg creator salt now o)
    unfolding hand_out
    hand_out_cases none y = inr (refl, refl)
    hand_out_cases (some onchain_cid) y =
        elim (Bool-cases (onchain_cid == derived_cid u hashes cfg creator salt)) [
          | inl e ↦ rw e (store_row_cases _ (y ∙ ap some (same_id _ _ e)) refl)
          | inr e ↦ rw e (inr (refl, refl))
        ]

  module _ (factory : Factory) (cfg : ListingConfig) (c : factory.config ≡ some (some cfg)) where
    gated_cases :
        (reason : Option Gate) (last : ℕ)
        → lister_state cfg factory ≡ some (true, last)
        → cooldown_remaining last cfg.cooldown_seconds now ≡ 0
        → prepare_gate u db body creator cfg.bounds now ≡ reason
        → Ends factory (gated u hashes db body cfg factory creator salt now reason)
    unfolding gated
    gated_cases (some why) last n w e = inr (refl, refl)
    gated_cases none last n w e =
        hand_out_cases factory cfg c last n w e (factory.user_condition_id creator salt) refl

    prepare_as_cases :
        (o : Option (Bool × ℕ))
        → lister_state cfg factory ≡ o
        → Ends factory (prepare_as u hashes db body cfg factory creator salt now o)
    unfolding prepare_as
    prepare_as_cases none n = inr (refl, refl)
    prepare_as_cases (some (false, last)) n = inr (refl, refl)
    prepare_as_cases (some (true, last)) n =
        elim (Bool-cases (ltb 0 (cooldown_remaining last cfg.cooldown_seconds now))) [
          | inl e ↦ rw e (inr (refl, refl))
          | inr e ↦ rw e (gated_cases _ last n (ground (arith, e)) refl)
        ]

  -- The prepare route either hands nothing out and writes nothing, or stores the prepared row, and
  -- then the factory takes listings, the lister is allowed and has no cooldown left, every gate
  -- passes, and the derived condition id has no row yet.
  pub prepare_cases :
      (factory : Factory) → Ends factory (listing_prepare u hashes db body factory creator salt now)
  unfolding listing_prepare prepare_for
  prepare_cases factory = go factory.config refl
    where
      go :
          (o : Option (Option ListingConfig))
          → factory.config ≡ o
          → Ends factory (prepare_for u hashes db body factory creator salt now o)
      go none e = inr (refl, refl)
      go (some none) e = inr (refl, refl)
      go (some (some cfg)) e = prepare_as_cases factory cfg e (lister_state cfg factory) refl
