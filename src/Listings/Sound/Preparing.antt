-- ===== src/Listings/Sound/Preparing.antt =====
-- The prepare route of backend/app/markets/listing.py and the stored listings.
use over_under.Prelude.{ℕ, ◌≡◌, refl, sym, subst, inl, inr, none, List, [], ◌∷◌, ◌++◌, All-append}
use over_under.Prelude.Table.{find, append-Keyed}
use over_under.Text.{Text, Unicode}
use over_under.Text.Laws.{strip_idem}
use over_under.Market.{Listing, listing_key}
use over_under.Db.{Db}
use over_under.Listings.Prepare.{
  Hashes, PrepareIn, Factory, Prepared, listing_prepare, prepared_row, store_row, derived_cid,
}
use over_under.Listings.Prepare.Ends.{prepare_cases}
use over_under.Listings.Sound.{Sound, ListingsSound}

module _ (u : Unicode) (keccak : Text → ℕ) where
  append-Sound :
      (rows : List Listing) (r : Listing)
      → find listing_key r.condition_id rows ≡ none
      → Sound u keccak r
      → ListingsSound u keccak rows
      → ListingsSound u keccak (rows ++ r ∷ [])
  append-Sound rows r e s inv = (
    append-Keyed listing_key r rows e inv.0,
    All-append (Sound u keccak) rows (r ∷ []) inv.1 (s, tt),
  )

  -- The prepare route keeps the listings sound.
  pub prepare-Sound :
      (hashes : Hashes) (db : Db) (body : PrepareIn) (factory : Factory) (creator salt now : ℕ)
      → ListingsSound u keccak db.listings
      → ListingsSound u keccak
          (listing_prepare u hashes db body factory creator salt now).0.listings
  unfolding store_row
  prepare-Sound hashes db body factory creator salt now inv =
      elim (prepare_cases u hashes db body creator salt now factory) [
        | inl s ↦
            subst (λ (x : Db × Prepared). ListingsSound u keccak x.0.listings) (sym s.result_is)
              (append-Sound db.listings
                (prepared_row u hashes body (derived_cid u hashes s.cfg creator salt) creator salt
                  now)
                s.fresh (strip_idem u body.resolution_criteria, inl refl) inv)
        | inr (e, f) ↦ subst (λ d. ListingsSound u keccak d.listings) (sym e) inv
      ]
