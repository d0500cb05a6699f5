-- ===== src/Listings/Sound/Indexing.antt =====
-- The indexer's writes to the stored listings (backend/app/indexer/listener.py).
use over_under.Prelude.{
  ℕ, ◌≡◌, refl, sym, ap, subst, inl, inr, false, not, ◌&&◌, Option, none, some, List, arith, ◌==◌,
  Bool-cases,
}
use over_under.Prelude.Table.{
  find, modify-Keyed, insert_ignore-Keyed, insert_ignore-All, insert_ignore, All-modify,
  All-modify_found, find-All,
}
use over_under.Text.{Text, Unicode, strip}
use over_under.Market.{Listing, Gate, listing_key}
use over_under.Db.{Db}
use over_under.Listings.Gates.{check_criteria}
use over_under.Listings.Review.{review_user_listing}
use over_under.Listings.Confirm.{bare_listing}
use over_under.Listings.Indexed.{
  Created, index_user_listing, index_listing, with_listing, settle, is_settled, is_blank,
  turned_down, published, unverified,
}
use over_under.Listings.Sound.{Sound, ListingsSound, review_passed}

module _ (u : Unicode) (keccak : Text → ℕ) where
  settle-Sound :
      (db : Db) (rows : List Listing) (cid : ℕ) (l : Listing) (args : Created) (hash seed now : ℕ)
      (reason : Option Gate)
      → keccak (strip u l.resolution_criteria) ≡ hash
      → find listing_key cid rows ≡ some l
      → review_user_listing u db.markets rows cid
          (some l)
          args.question
          args.close_time
          (some seed)
          (strip u l.resolution_criteria)
          now
        ≡ reason
      → ListingsSound u keccak rows
      → ListingsSound u keccak
          (settle u keccak db rows cid args hash seed
            (strip u l.resolution_criteria)
            reason).listings
  unfolding settle
  settle-Sound db rows cid l args hash seed now (some why) h e f inv = (
    modify-Keyed listing_key cid (turned_down hash why) rows (λ x. refl) inv.0,
    All-modify listing_key cid (turned_down hash why) (Sound u keccak) rows (λ x s. (s.0, inl refl))
        inv.1,
  )
  settle-Sound db rows cid l args hash seed now none h e f inv =
      let c = strip u l.resolution_criteria in
      let p =
        review_passed u keccak db.markets rows cid (some l) args.question args.close_time
          (some seed) c now f in
      let t = (find-All listing_key (Sound u keccak) cid rows l inv.1 e).0 in
      (
        modify-Keyed listing_key cid (published args hash seed c) rows (λ x. refl) inv.0,
        All-modify_found listing_key (Sound u keccak) cid (published args hash seed c) rows l inv.0
            e (t, inr (ap some (sym h), subst (λ x. check_criteria x ≡ none) t p.1, p.2, p.3))
            inv.1,
      )

  unverified-Sound :
      (hash seed : ℕ) (l : Listing)
      → is_settled l.status ≡ false
      → Sound u keccak l
      → Sound u keccak (unverified hash seed l)
  unverified-Sound hash seed l e s = (s.0, inl (ground arith))

  index_listing-Sound :
      (db : Db) (rows : List Listing) (cid : ℕ) (l : Listing) (args : Created) (now : ℕ)
      (commitments : Option (ℕ × ℕ))
      → find listing_key cid rows ≡ some l
      → is_settled l.status ≡ false
      → ListingsSound u keccak rows
      → ListingsSound u keccak (index_listing u keccak db rows cid l args now commitments).listings
  unfolding index_listing
  index_listing-Sound db rows cid l args now none e f inv = inv
  index_listing-Sound db rows cid l args now (some (hash, seed)) e f inv =
      let c = strip u l.resolution_criteria in
      elim (Bool-cases (not (is_blank c) && keccak c == hash)) [
        | inl h ↦ rw h (settle-Sound db rows cid l args hash seed now _ (ground arith) e refl inv)
        | inr h ↦ rw h (
          modify-Keyed listing_key cid (unverified hash seed) rows (λ x. refl) inv.0,
          All-modify_found listing_key (Sound u keccak) cid (unverified hash seed) rows l inv.0 e
              (unverified-Sound hash seed l f
                (find-All listing_key (Sound u keccak) cid rows l inv.1 e))
              inv.1,
        )
      ]

  with_listing-Sound :
      (db : Db) (rows : List Listing) (cid : ℕ) (args : Created) (now : ℕ)
      (commitments : Option (ℕ × ℕ)) (o : Option Listing)
      → find listing_key cid rows ≡ o
      → ListingsSound u keccak rows
      → ListingsSound u keccak (with_listing u keccak db rows cid args now commitments o).listings
  unfolding with_listing
  with_listing-Sound db rows cid args now commitments none e inv = inv
  with_listing-Sound db rows cid args now commitments (some l) e inv =
      elim (Bool-cases (is_settled l.status)) [
        | inl f ↦ rw f inv
        | inr f ↦ rw f (index_listing-Sound db rows cid l args now commitments e f inv)
      ]

  -- The indexer keeps the listings sound.
  pub index-Sound :
      (db : Db) (cid : ℕ) (args : Created) (commitments : Option (ℕ × ℕ)) (now : ℕ)
      → ListingsSound u keccak db.listings
      → ListingsSound u keccak (index_user_listing u keccak db cid args commitments now).listings
  unfolding index_user_listing
  index-Sound db cid args commitments now inv =
      let row = bare_listing cid args.creator args.question args.close_time now in
      with_listing-Sound db (insert_ignore listing_key row db.listings) cid args now commitments _
        refl
        (
          insert_ignore-Keyed listing_key row db.listings inv.0,
          insert_ignore-All listing_key (Sound u keccak) row db.listings (refl, inl refl) inv.1,
        )
