-- ===== src/Listings/Roundtrip.antt =====
-- From the prepare route to the confirm route of backend/app/markets/listing.py.
use over_under.Prelude.{
  ℕ, ◌≡◌, refl, sym, ap, subst, ◌∙◌, inl, inr, Bool, true, false, none, some, List, [], ◌∷◌, arith,
  ◌==◌, ==-refl,
}
use over_under.Prelude.Table.{find, find-append_self}
use over_under.Text.{Text, Unicode, strip}
use over_under.Text.Laws.{same_text_refl, strip_idem}
use over_under.Market.{Listing, listing_key, market_type_user}
use over_under.Db.{Db}
use over_under.Listings.Gates.{
  is_duplicate, check_question, check_criteria, check_listed_question, prepared_mismatch,
  validate_listing, Bounds,
}
use over_under.Listings.Review.{
  open_questions, prepared_gate, review_user_listing, is_backend_prepared,
}
use over_under.Listings.Confirm.{
  OnChain, ChainRead, Confirmed, confirm_review, listing_confirm, choose, candidates, confirm_with,
  criteria_hash, outcome_of, nonempty,
}
use over_under.Listings.Prepare.{
  Hashes, PrepareIn, Factory, Prepared, Calls, listing_prepare, prepared_row, prepare_gate,
  store_row, derived_cid, calls_of, ListingConfig,
}
use over_under.Listings.Prepare.Ends.{prepare_cases}
use over_under.Listings.Sound.{or_else-none}

given : (a b : Calls) → Prepared.handed_out a ≡ Prepared.handed_out b → a ≡ b
given a b e = cc e

module _ (u : Unicode) (hashes : Hashes) where
  -- The market that the calls create: what the user's account sent is what was prepared.
  abbrev pub created_market : PrepareIn → Calls → ℕ → Bool → OnChain
  created_market body calls creator paused = record {
    market_type = market_type_user;
    question = strip u body.question;
    close_time = body.close_time;
    paused = paused;
    creator = creator;
    criteria_hash = calls.criteria_hash;
    seed_usdc = body.seed_usdc;
  }

  gate_passed :
      (db : Db) (body : PrepareIn) (creator now : ℕ) (bounds : Bounds)
      → prepare_gate u db body creator bounds now ≡ none
      → (check_question u (strip u body.question) ≡ none)
        × (check_criteria (strip u body.resolution_criteria) ≡ none)
  unfolding prepare_gate validate_listing
  gate_passed db body creator now bounds h =
      let v =
        or_else-none
          (validate_listing u (strip u body.question) (strip u body.resolution_criteria)
            body.close_time body.seed_usdc bounds now)
          _ h in
      let w = or_else-none (check_question u (strip u body.question)) _ v.0 in
      (w.0, (or_else-none (check_criteria (strip u body.resolution_criteria)) _ w.1).0)

  choose_own :
      (hash : ℕ) (t text : Text)
      → check_criteria t ≡ none
      → criteria_hash u hashes.keccak t ≡ hash
      → (rest : List Text)
      → (choose u hashes.keccak hash (nonempty t rest) ≡ some t) × (nonempty t rest ≡ t ∷ rest)
  unfolding choose check_criteria
  choose_own hash [] text h e rest = absurd (ground (arith, h))
  choose_own hash (c ∷ t) text h e rest = (ground (arith, e), refl)

  review_prepared :
      (db2 : Db) (cid later : ℕ) (l : Listing) (c : Text)
      → is_backend_prepared (some l) ≡ true
      → check_criteria c ≡ none
      → check_question u l.question ≡ none
      → strip u l.question ≡ l.question
      → is_duplicate u l.question (open_questions db2.markets db2.listings later (some cid)) ≡ false
      → review_user_listing u db2.markets db2.listings cid
          (some l)
          l.question
          l.close_time
          (some l.seed_usdc)
          c
          later
        ≡ none
  unfolding review_user_listing prepared_gate prepared_mismatch check_listed_question
  review_prepared db2 cid later l c b cc cq t d =
      ground (
        arith,
        b,
        cc,
        cq,
        t,
        d,
        same_text_refl l.question,
        ==-refl l.close_time,
        ==-refl l.seed_usdc,
      )

  confirm_with_public :
      (db2 : Db) (cid : ℕ) (o : OnChain) (later : ℕ) (c : Text) (rest : List Text)
      → confirm_review u db2 cid o c later ≡ none
      → (confirm_with u hashes.keccak db2 cid o later (c ∷ rest) (some c)).1 ≡ Confirmed.public
  unfolding confirm_with
  confirm_with_public db2 cid o later c rest r = ap outcome_of r

  -- The route on a stored row whose own criteria text has the hash.
  confirm_own :
      (db2 : Db) (cid account later : ℕ) (text : Text) (o : OnChain) (l : Listing)
      → find listing_key cid db2.listings ≡ some l
      → (o.market_type == market_type_user) ≡ true
      → (o.creator == account) ≡ true
      → check_criteria l.resolution_criteria ≡ none
      → criteria_hash u hashes.keccak l.resolution_criteria ≡ o.criteria_hash
      → confirm_review u db2 cid o l.resolution_criteria later ≡ none
      → (listing_confirm u hashes.keccak db2 (ChainRead.reported o) cid account text later).1
        ≡ Confirmed.public
  unfolding listing_confirm candidates
  confirm_own db2 cid account later text o l e m a cc h r =
      let own =
        choose_own o.criteria_hash l.resolution_criteria text cc h (nonempty (strip u text) []) in
      rw (m, a, e, own.0, own.1)
        (confirm_with_public db2 cid o later l.resolution_criteria (nonempty (strip u text) []) r)

  abbrev Confirms : Db → PrepareIn → ℕ → ℕ → Bool → Text → Calls → Type 0
  Confirms db2 body creator later paused text calls =
      (listing_confirm u hashes.keccak db2
        (ChainRead.reported (created_market body calls creator paused)) calls.condition_id creator
        text later).1
      ≡ Confirmed.public

  stored-Confirms :
      (db2 : Db) (body : PrepareIn) (creator salt now later : ℕ) (cfg : ListingConfig)
      (paused : Bool) (text : Text)
      → check_question u (strip u body.question) ≡ none
      → check_criteria (strip u body.resolution_criteria) ≡ none
      → find listing_key (derived_cid u hashes cfg creator salt) db2.listings
        ≡ some (prepared_row u hashes body (derived_cid u hashes cfg creator salt) creator salt now)
      → is_duplicate u (strip u body.question) (
          open_questions db2.markets db2.listings later
            (some (derived_cid u hashes cfg creator salt)))
        ≡ false
      → Confirms db2 body creator later paused text
          (calls_of u hashes body cfg creator salt (derived_cid u hashes cfg creator salt))
  unfolding is_backend_prepared
  stored-Confirms db2 body creator salt now later cfg paused text q c e d =
      let cid = derived_cid u hashes cfg creator salt in
      let row = prepared_row u hashes body cid creator salt now in
      let o = created_market body (calls_of u hashes body cfg creator salt cid) creator paused in
      confirm_own db2 cid creator later text o row e refl (==-refl creator) c refl (
        subst
          (λ x.
            review_user_listing u db2.markets db2.listings cid x row.question row.close_time
              (some row.seed_usdc) row.resolution_criteria later
            ≡ none)
          (sym e)
          (review_prepared db2 cid later row row.resolution_criteria refl c q
            (strip_idem u body.question) d))

  -- A listing that the prepare route handed out and that is on the chain as handed out is
  -- confirmed, at any later time, whatever criteria text the confirm's body brings, if its row
  -- still stands as prepared and no other open market's question is a duplicate.
  pub confirm_prepared :
      (db db2 : Db) (body : PrepareIn) (factory : Factory) (creator salt now later : ℕ)
      (calls : Calls) (paused : Bool) (text : Text)
      → (listing_prepare u hashes db body factory creator salt now).1 ≡ Prepared.handed_out calls
      → find listing_key calls.condition_id db2.listings
        ≡ find listing_key calls.condition_id
            (listing_prepare u hashes db body factory creator salt now).0.listings
      → is_duplicate u
          (strip u body.question)
          (open_questions db2.markets db2.listings later (some calls.condition_id))
        ≡ false
      → (listing_confirm u hashes.keccak db2
          (ChainRead.reported (created_market body calls creator paused))
          calls.condition_id
          creator
          text
          later).1
        ≡ Confirmed.public
  unfolding store_row
  confirm_prepared db db2 body factory creator salt now later calls paused text h same apart =
      elim (prepare_cases u hashes db body creator salt now factory) [
        | inr (e, f) ↦ absurd (ground (arith, h, f))
        | inl s ↦
            let cid = derived_cid u hashes s.cfg creator salt in
            let row = prepared_row u hashes body cid creator salt now in
            let g = gate_passed db body creator now s.cfg.bounds s.passed in
            let k = ap (λ (x : Db × Prepared). x.1) (sym s.result_is) ∙ h in
            let is : calls ≡ calls_of u hashes body s.cfg creator salt cid = given _ _ (sym k) in
            subst (Confirms db2 body creator later paused text) (sym is) (
              stored-Confirms db2 body creator salt now later s.cfg paused text g.0 g.1
                (subst
                    (λ (x : Calls).
                      find listing_key x.condition_id db2.listings
                      ≡ find listing_key x.condition_id
                          (listing_prepare u hashes db body factory creator salt now).0.listings)
                    is same
                  ∙ ap (λ (x : Db × Prepared). find listing_key cid x.0.listings) s.result_is
                  ∙ find-append_self listing_key row db.listings s.fresh)
                (subst
                  (λ (x : Calls).
                    is_duplicate u (strip u body.question)
                      (open_questions db2.markets db2.listings later (some x.condition_id))
                    ≡ false)
                  is apart))
      ]
