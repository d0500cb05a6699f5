-- ===== src/Listings/Confirm/Ends.antt =====
-- The ways in which the confirm route of backend/app/markets/listing.py can end.
use over_under.Prelude.{
  ℕ, ◌≡◌, refl, ap, ◌∙◌, ◌⊎◌, inl, inr, Bool, true, false, Option, none, some, List, [], ◌∷◌, arith,
  ◌==◌, ==_iff, Bool-cases,
}
use over_under.Prelude.Table.{find}
use over_under.Text.{Text, Unicode}
use over_under.Market.{listing_key, market_type_user}
use over_under.Db.{Db}
use over_under.Listings.Confirm.{
  OnChain, ChainRead, Confirmed, criteria_hash, choose, candidates, confirm_with, confirm_review,
  apply_confirm, outcome_of, listing_confirm,
}

-- The answers that write nothing.
abbrev pub is_refusal : Confirmed → Bool
is_refusal Confirmed.public = false
is_refusal (Confirmed.listing_rejected why) = false
is_refusal _ = true

module _ (u : Unicode) (keccak : Text → ℕ) where
  pub choose-hash :
      (hash : ℕ) (texts : List Text) (t : Text)
      → choose u keccak hash texts ≡ some t
      → criteria_hash u keccak t ≡ hash
  unfolding choose
  choose-hash hash [] t h = cc
  choose-hash hash (x ∷ texts) t h = ground (arith, choose-hash hash texts t)

  abbrev pub confirms : OnChain → Text → Db → ℕ → ℕ → Db × Confirmed
  confirms onchain criteria db cid now =
      let reason = confirm_review u db cid onchain criteria now in
      (apply_confirm db cid onchain criteria reason now, outcome_of reason)

  pub record Applied (db : Db) (read : ChainRead) (cid account now : ℕ) (body : Text)
      (result : Db × Confirmed) : Type 0 where
    pub onchain : OnChain
    pub criteria : Text
    pub read_is : read ≡ ChainRead.reported onchain
    pub type_is : onchain.market_type ≡ market_type_user
    pub creator_is : onchain.creator ≡ account
    pub chosen :
        choose u keccak onchain.criteria_hash (candidates u (find listing_key cid db.listings) body)
        ≡ some criteria
    pub result_is : result ≡ confirms onchain criteria db cid now

  abbrev pub Ends : Db → ChainRead → ℕ → ℕ → ℕ → Text → Db × Confirmed → Type 0
  Ends db read cid account now body r =
      Applied db read cid account now body r ⊎ ((r.0 ≡ db) × (is_refusal r.1 ≡ true))

  confirm_with_cases :
      (db : Db) (o : OnChain) (cid account now : ℕ) (body : Text) (ts : List Text) (c : Option Text)
      → o.market_type ≡ market_type_user
      → o.creator ≡ account
      → candidates u (find listing_key cid db.listings) body ≡ ts
      → choose u keccak o.criteria_hash ts ≡ c
      → Ends db
          (ChainRead.reported o)
          cid
          account
          now
          body
          (confirm_with u keccak db cid o now ts c)
  unfolding confirm_with
  confirm_with_cases db o cid account now body [] c e f g h = inr (refl, refl)
  confirm_with_cases db o cid account now body (t ∷ ts) none e f g h = inr (refl, refl)
  confirm_with_cases db o cid account now body (t ∷ ts) (some c) e f g h = inl (record {
    onchain = o;
    criteria = c;
    read_is = refl;
    type_is = e;
    creator_is = f;
    chosen = ap (choose u keccak o.criteria_hash) g ∙ h;
    result_is = refl;
  })

  -- The ways in which a call can end.
  pub confirm_cases :
      (db : Db) (read : ChainRead) (cid account : ℕ) (body : Text) (now : ℕ)
      → Ends db read cid account now body (listing_confirm u keccak db read cid account body now)
  unfolding listing_confirm
  confirm_cases db ChainRead.unreachable cid account body now = inr (refl, refl)
  confirm_cases db ChainRead.missing cid account body now = inr (refl, refl)
  confirm_cases db (ChainRead.reported o) cid account body now =
      elim (Bool-cases (o.market_type == market_type_user)) [
        | inr e ↦ inr (rw e (refl, refl))
        | inl e ↦ elim (Bool-cases (o.creator == account)) [
          | inr f ↦ inr (rw (e, f) (refl, refl))
          | inl f ↦
              rw (e, f)
                (confirm_with_cases db o cid account now body
                  (candidates u (find listing_key cid db.listings) body) _
                  ((==_iff o.market_type market_type_user).0 e) ((==_iff o.creator account).0 f)
                  refl refl)
        ]
      ]
