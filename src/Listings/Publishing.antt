-- ===== src/Listings/Publishing.antt =====
-- What the confirm route of backend/app/markets/listing.py makes public, and what it hides.
use over_under.Prelude.{
  ℕ, ◌≡◌, refl, sym, ap, subst, ◌∙◌, ◌⊎◌, inl, inr, true, false, Option, none, some, [], arith,
}
use over_under.Prelude.Table.{
  find, find-modify_self, insert_ignore, find-insert_ignore, kept, find-key,
}
use over_under.Text.{Text, Unicode}
use over_under.Market.{Market, Listing, Gate, listing_key, market_key}
use over_under.Db.{Db}
use over_under.Listings.Gates.{is_duplicate}
use over_under.Listings.Review.{open_questions, prepared_gate, is_listed}
use over_under.Listings.Confirm.{
  OnChain, ChainRead, Confirmed, confirm_review, apply_confirm, confirm_listing, confirm_market,
  outcome_of, listing_confirm, criteria_hash, bare_listing, market_row,
}
use over_under.Listings.Confirm.Ends.{confirm_cases, choose-hash, is_refusal}
use over_under.Listings.Sound.{Verified, review_passed}

confirm_listing_key :
    (o : OnChain) (c : Text) (reason : Option Gate) (l : Listing)
    → listing_key (confirm_listing o c reason l) ≡ listing_key l
unfolding confirm_listing
confirm_listing_key o c none l = refl
confirm_listing_key o c (some why) l = refl

confirm_market_key :
    (o : OnChain) (c : Text) (reason : Option Gate) (m : Market)
    → market_key (confirm_market o c reason m) ≡ market_key m
unfolding confirm_market
confirm_market_key o c reason m = refl

-- The row that the route updates: the stored one, or a new one.
abbrev pub base_listing : Db → ℕ → OnChain → ℕ → Listing
base_listing db cid o now =
    kept listing_key (find listing_key cid db.listings)
      (bare_listing cid o.creator o.question o.close_time now)

abbrev pub base_market : Db → ℕ → OnChain → Market
base_market db cid o = kept market_key (find market_key cid db.markets) (market_row cid o)

listing_after :
    (db : Db) (cid : ℕ) (o : OnChain) (c : Text) (reason : Option Gate) (now : ℕ)
    → find listing_key cid (apply_confirm db cid o c reason now).listings
      ≡ some (confirm_listing o c reason (base_listing db cid o now))
unfolding apply_confirm
listing_after db cid o c reason now =
    let row = bare_listing cid o.creator o.question o.close_time now in
    find-modify_self listing_key cid (confirm_listing o c reason)
      (insert_ignore listing_key row db.listings) _ (confirm_listing_key o c reason)
      (find-insert_ignore listing_key row db.listings)

market_after :
    (db : Db) (cid : ℕ) (o : OnChain) (c : Text) (reason : Option Gate) (now : ℕ)
    → find market_key cid (apply_confirm db cid o c reason now).markets
      ≡ some (confirm_market o c reason (base_market db cid o))
unfolding apply_confirm
market_after db cid o c reason now =
    find-modify_self market_key cid (confirm_market o c reason)
      (insert_ignore market_key (market_row cid o) db.markets) _ (confirm_market_key o c reason)
      (find-insert_ignore market_key (market_row cid o) db.markets)

outcome_public : (reason : Option Gate) → outcome_of reason ≡ Confirmed.public → reason ≡ none
outcome_public none h = refl
outcome_public (some why) h = absurd (ground arith)

module _ (u : Unicode) (keccak : Text → ℕ) where
  -- What the rows say of a condition id that is public.
  pub record Public (db after : Db) (read : ChainRead) (cid now : ℕ) : Type 0 where
    pub onchain : OnChain
    pub listing : Listing
    pub market : Market
    pub read_is : read ≡ ChainRead.reported onchain
    pub listing_is : find listing_key cid after.listings ≡ some listing
    pub market_is : find market_key cid after.markets ≡ some market
    pub listed : is_listed after.listings market ≡ true
    pub verified : Verified u keccak listing
    pub committed : listing.criteria_hash ≡ some onchain.criteria_hash
    pub question_is : listing.question ≡ onchain.question
    pub shown_is : market.question ≡ onchain.question
    pub as_prepared :
        prepared_gate
          (find listing_key cid db.listings)
          onchain.question
          onchain.close_time
          (some onchain.seed_usdc)
        ≡ none
    pub apart :
        is_duplicate u onchain.question (open_questions db.markets db.listings now (some cid))
        ≡ false

  applied_public :
      (db : Db) (read : ChainRead) (cid now : ℕ) (o : OnChain) (c : Text) (reason : Option Gate)
      → read ≡ ChainRead.reported o
      → criteria_hash u keccak c ≡ o.criteria_hash
      → confirm_review u db cid o c now ≡ reason
      → outcome_of reason ≡ Confirmed.public
      → Public db (apply_confirm db cid o c reason now) read cid now
  unfolding confirm_listing confirm_market is_listed
  applied_public db read cid now o c (some why) r h e f = absurd (ground (arith, f))
  applied_public db read cid now o c none r h e f =
      let p =
        review_passed u keccak db.markets db.listings cid (find listing_key cid db.listings)
          o.question o.close_time (some o.seed_usdc) c now e in
      let l = listing_after db cid o c none now in
      let m = market_after db cid o c none now in
      record {
        onchain = o;
        listing = confirm_listing o c none (base_listing db cid o now);
        market = confirm_market o c none (base_market db cid o);
        read_is = r;
        listing_is = l;
        market_is = m;
        listed = ground (arith, find-key market_key cid _ _ m, l);
        verified = (ap some (sym h), p.1, p.2, p.3);
        committed = refl;
        question_is = refl;
        shown_is = refl;
        as_prepared = p.0;
        apart = p.4;
      }

  -- When the confirm route answers with success, the factory reported the market; its row and its
  -- listing's are there and the market is listed; the listing's criteria text hashes to the
  -- reported commitment and passes its gate; its question, and the market's, are the reported one,
  -- which is trimmed, passes the question gate, and is no duplicate of an open question; and where
  -- the backend prepared the listing, question, close time and seed are the prepared ones.
  pub confirm_publishes :
      (db : Db) (read : ChainRead) (cid account : ℕ) (body : Text) (now : ℕ)
      → (listing_confirm u keccak db read cid account body now).1 ≡ Confirmed.public
      → Public db (listing_confirm u keccak db read cid account body now).0 read cid now
  confirm_publishes db read cid account body now h =
      elim (confirm_cases u keccak db read cid account body now) [
        | inl a ↦
            let reason = confirm_review u db cid a.onchain a.criteria now in
            subst (λ (x : Db × Confirmed). Public db x.0 read cid now) (sym a.result_is)
              (applied_public db read cid now a.onchain a.criteria reason a.read_is
                (choose-hash u keccak a.onchain.criteria_hash _ a.criteria a.chosen) refl
                (ap (λ (x : Db × Confirmed). x.1) (sym a.result_is) ∙ h))
        | inr (e, f) ↦ absurd (ground (arith, h, f))
      ]

  -- What the rows say of a condition id that is rejected.
  pub record Hidden (db after : Db) (read : ChainRead) (cid now : ℕ) (why : Gate) : Type 0 where
    pub onchain : OnChain
    pub listing : Listing
    pub market : Market
    pub read_is : read ≡ ChainRead.reported onchain
    pub listing_is : find listing_key cid after.listings ≡ some listing
    pub market_is : find market_key cid after.markets ≡ some market
    pub unlisted : is_listed after.listings market ≡ false
    pub no_criteria : market.resolution_criteria ≡ []
    pub reason_is : listing.reject_reason ≡ some why
    pub question_kept : listing.question ≡ (base_listing db cid onchain now).question
    pub close_kept : listing.close_time ≡ (base_listing db cid onchain now).close_time
    pub seed_kept : listing.seed_usdc ≡ (base_listing db cid onchain now).seed_usdc

  applied-Hidden :
      (db : Db) (read : ChainRead) (cid now : ℕ) (o : OnChain) (c : Text) (reason : Option Gate)
      (why : Gate)
      → read ≡ ChainRead.reported o
      → outcome_of reason ≡ Confirmed.listing_rejected why
      → Hidden db (apply_confirm db cid o c reason now) read cid now why
  unfolding confirm_listing confirm_market is_listed
  applied-Hidden db read cid now o c none why r f = absurd (ground (arith, f))
  applied-Hidden db read cid now o c (some w) why r f =
      let l = listing_after db cid o c (some w) now in
      let m = market_after db cid o c (some w) now in
      record {
        onchain = o;
        listing = confirm_listing o c (some w) (base_listing db cid o now);
        market = confirm_market o c (some w) (base_market db cid o);
        read_is = r;
        listing_is = l;
        market_is = m;
        unlisted = ground (arith, find-key market_key cid _ _ m, l);
        no_criteria = refl;
        reason_is = ground (arith, f);
        question_kept = refl;
        close_kept = refl;
        seed_kept = refl;
      }

  abbrev pub Outcome : Db → ChainRead → ℕ → ℕ → Db × Confirmed → Type 0
  Outcome db read cid now r =
      (r.1 ≡ Confirmed.public)
      ⊎ ((r.0 ≡ db) × (is_refusal r.1 ≡ true))
      ⊎ ((why : Gate) × (r.1 ≡ Confirmed.listing_rejected why) × Hidden db r.0 read cid now why)

  applied-Outcome :
      (db : Db) (read : ChainRead) (cid now : ℕ) (o : OnChain) (c : Text) (reason : Option Gate)
      → read ≡ ChainRead.reported o
      → Outcome db read cid now (apply_confirm db cid o c reason now, outcome_of reason)
  applied-Outcome db read cid now o c none r = inl refl
  applied-Outcome db read cid now o c (some why) r =
      inr (inr (why, refl, applied-Hidden db read cid now o c (some why) why r refl))

  -- The confirm route answers with success; or it refuses and writes nothing; or it rejects the
  -- listing, and then the row says why, the market is not listed and has no criteria, and the
  -- listing keeps the question, close time and seed that it had.
  pub confirm_fails :
      (db : Db) (read : ChainRead) (cid account : ℕ) (body : Text) (now : ℕ)
      → Outcome db read cid now (listing_confirm u keccak db read cid account body now)
  confirm_fails db read cid account body now =
      elim (confirm_cases u keccak db read cid account body now) [
        | inl a ↦
            subst (Outcome db read cid now) (sym a.result_is)
              (applied-Outcome db read cid now a.onchain a.criteria _ a.read_is)
        | inr e ↦ inr (inl e)
      ]
