-- ===== src/Listings/Sound/Confirming.antt =====
-- The confirm route of backend/app/markets/listing.py and the stored listings.
use over_under.Prelude.{
  ℕ, ◌≡◌, refl, sym, ap, subst, inl, inr, Option, none, some, List, [], ◌∷◌, arith, All,
}
use over_under.Prelude.Table.{
  find, modify-Keyed, insert_ignore-Keyed, insert_ignore-All, insert_ignore, All-modify, find-All,
}
use over_under.Text.{Text, Unicode, strip}
use over_under.Text.Laws.{strip_idem}
use over_under.Market.{Listing, Gate, listing_key}
use over_under.Db.{Db}
use over_under.Listings.Confirm.{
  OnChain, ChainRead, Confirmed, criteria_hash, choose, candidates, confirm_review, apply_confirm,
  confirm_listing, listing_confirm, bare_listing, nonempty,
}
use over_under.Listings.Sound.{Sound, ListingsSound, review_passed}
use over_under.Listings.Confirm.Ends.{Applied, confirm_cases, choose-hash}

module _ (u : Unicode) (keccak : Text → ℕ) where
  choose_trimmed :
      (hash : ℕ) (texts : List Text) (t : Text)
      → choose u keccak hash texts ≡ some t
      → All (λ x. strip u x ≡ x) texts
      → strip u t ≡ t
  unfolding choose
  choose_trimmed hash [] t h a = cc
  choose_trimmed hash (x ∷ texts) t h a = ground (arith, choose_trimmed hash texts t)

  nonempty_trimmed :
      (t : Text) (texts : List Text)
      → strip u t ≡ t
      → All (λ x. strip u x ≡ x) texts
      → All (λ x. strip u x ≡ x) (nonempty t texts)
  nonempty_trimmed [] texts e a = a
  nonempty_trimmed (c ∷ t) texts e a = (e, a)

  candidates_trimmed :
      (rows : List Listing) (cid : ℕ) (body : Text)
      → All (Sound u keccak) rows
      → All (λ x. strip u x ≡ x) (candidates u (find listing_key cid rows) body)
  unfolding candidates
  candidates_trimmed rows cid body a = go (find listing_key cid rows) refl
    where
      own : All (λ x. strip u x ≡ x) (nonempty (strip u body) [])
      own = nonempty_trimmed (strip u body) [] (strip_idem u body) tt

      go :
          (o : Option Listing)
          → find listing_key cid rows ≡ o
          → All (λ x. strip u x ≡ x) (candidates u o body)
      go none e = own
      go (some l) e =
          nonempty_trimmed l.resolution_criteria (nonempty (strip u body) [])
            (find-All listing_key (Sound u keccak) cid rows l a e).0 own

  confirm_listing_key :
      (o : OnChain) (c : Text) (reason : Option Gate) (l : Listing)
      → listing_key (confirm_listing o c reason l) ≡ listing_key l
  unfolding confirm_listing
  confirm_listing_key o c none l = refl
  confirm_listing_key o c (some why) l = refl

  confirm_listing-Sound :
      (db : Db) (cid now : ℕ) (o : OnChain) (c : Text) (l : Listing) (reason : Option Gate)
      → strip u c ≡ c
      → criteria_hash u keccak c ≡ o.criteria_hash
      → Sound u keccak l
      → confirm_review u db cid o c now ≡ reason
      → Sound u keccak (confirm_listing o c reason l)
  unfolding confirm_listing
  confirm_listing-Sound db cid now o c l (some why) t h s e = (s.0, inl refl)
  confirm_listing-Sound db cid now o c l none t h s e =
      let p =
        review_passed u keccak db.markets db.listings cid (find listing_key cid db.listings)
          o.question o.close_time (some o.seed_usdc) c now e in
      (t, inr (ap some (sym h), p.1, p.2, p.3))

  Applied-Sound :
      (db : Db) (read : ChainRead) (cid account now : ℕ) (body : Text) (r : Db × Confirmed)
      → Applied u keccak db read cid account now body r
      → ListingsSound u keccak db.listings
      → ListingsSound u keccak r.0.listings
  unfolding apply_confirm
  Applied-Sound db read cid account now body r a inv =
      let o = a.onchain in
      let row = bare_listing cid o.creator o.question o.close_time now in
      let reason = confirm_review u db cid o a.criteria now in
      let f = confirm_listing o a.criteria reason in
      let trimmed =
        choose_trimmed o.criteria_hash _ a.criteria a.chosen
          (candidates_trimmed db.listings cid body inv.1) in
      let rows = insert_ignore listing_key row db.listings in
      subst (λ (x : Db × Confirmed). ListingsSound u keccak x.0.listings) (sym a.result_is)
        (
          modify-Keyed listing_key cid f rows (confirm_listing_key o a.criteria reason)
              (insert_ignore-Keyed listing_key row db.listings inv.0),
          All-modify listing_key cid f (Sound u keccak) rows
              (λ l s.
                confirm_listing-Sound db cid now o a.criteria l reason trimmed
                  (choose-hash u keccak o.criteria_hash _ a.criteria a.chosen) s refl)
              (insert_ignore-All listing_key (Sound u keccak) row db.listings (refl, inl refl)
                inv.1),
        )

  -- The confirm route keeps the listings sound.
  pub confirm-Sound :
      (db : Db) (read : ChainRead) (cid account : ℕ) (body : Text) (now : ℕ)
      → ListingsSound u keccak db.listings
      → ListingsSound u keccak (listing_confirm u keccak db read cid account body now).0.listings
  confirm-Sound db read cid account body now inv =
      elim (confirm_cases u keccak db read cid account body now) [
        | inl a ↦ Applied-Sound db read cid account now body _ a inv
        | inr (e, f) ↦ subst (λ d. ListingsSound u keccak d.listings) (sym e) inv
      ]
