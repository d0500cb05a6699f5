-- ===== src/Orders/Posting.antt =====
-- What POST /orders of backend/app/orderbook/router.py lets through.
pub mod Fields
use over_under.Prelude.{
  ℕ, ◌+◌, ◌<◌, ◌≡◌, refl, sym, subst, ◌∙◌, ◌⊎◌, inl, inr, Bool, true, false, ◌&&◌, Option, none,
  some, List, [], ◌∷◌, arith, ltb, ◌==◌, length, All-append, Bool-cases, ltb→lt,
}
use over_under.Prelude.Table.{find}
use over_under.Settings.{Deployment, Domain, relayer_ready}
use over_under.Market.{HaltReason, trading_halt_reason}
use over_under.Db.{Order}
use over_under.Orderbook.Rows.{World}
use over_under.Orderbook.Match.{try_match}
use over_under.Orderbook.Match.Bounds.{AllWithin, Within, try_match-Within}
use over_under.Relayer.Preflight.{Ledger}
use over_under.Orders.Signing.{Crypto, order_digest, verify_order_signature}
use over_under.Orders.Post.{
  OrderIn, Refusal, Posted, order_hash_key, is_number, number, first_of, need, check_fields,
  order_of, open_orders, relayer_gate, preflight_gate, halt_gate, fresh_gate, signing_gate,
  early_gate, late_gate, row_of, with_row, matched, store_order, post_signed, after_early,
  post_order,
}
use over_under.Orders.Posting.Fields.{
  first_of-none, need-true, InBounds, FieldsOf, check_fields_bounds, hash_field,
}

module _ (c : Crypto) (d : Deployment) (w : World) (ledger : Option Ledger) (now id : ℕ)
    (raced : Bool) (user : ℕ) (body : OrderIn) where
  -- What an accepted order has passed.
  pub record Accepted (domain : Domain) (o : Order) : Type 0 where
    pub domain_is : d.domain ≡ some domain
    pub own : o.maker ≡ user
    pub unfilled : o.filled ≡ 0
    pub uncancelled : o.cancelled ≡ false
    pub bounds : InBounds o
    pub fields : FieldsOf body o
    pub open_market :
        trading_halt_reason w.db.markets w.db.listings o.condition_id d.settings now ≡ none
    pub hash_is : o.order_hash ≡ order_digest c o domain
    pub hash_given : body.order_hash ≡ some o.order_hash
    pub signed : verify_order_signature c o body.signature domain ≡ true
    pub unexpired : now + d.settings.relayer_min_expiry_seconds < o.expiry
    pub unique : find order_hash_key o.order_hash w.db.orders ≡ none
    pub relayed :
        (d.settings.relayer_enabled ≡ false)
        ⊎ ((relayer_ready d ≡ true)
            × (length (open_orders w.db.orders o.maker o.nonce now)
                < d.settings.relayer_max_open_orders_per_maker)
            × (preflight_gate d.settings ledger (open_orders w.db.orders o.maker o.nonce now) o
                ≡ none))

  abbrev pub Ends : World × Posted → Type 0
  Ends r =
      ((domain : Domain) × (o : Order) × Accepted domain o
        × (r ≡ matched c (try_match d now (with_row c w o) o)))
      ⊎ ((why : Refusal) × (r ≡ (w, Posted.refused why)))

  enabled :
      (orders : List Order) (o : Order)
      → d.settings.relayer_enabled ≡ true
      → first_of (need (relayer_ready d) Refusal.relayer_misconfigured) (
          first_of
            (need
              (ltb (length orders) d.settings.relayer_max_open_orders_per_maker)
              Refusal.too_many_open)
            (preflight_gate d.settings ledger orders o))
        ≡ relayer_gate d ledger orders o
  unfolding relayer_gate
  enabled orders o e = ground (arith, e)

  relayer_gate-none :
      (orders : List Order) (o : Order)
      → relayer_gate d ledger orders o ≡ none
      → (d.settings.relayer_enabled ≡ false)
        ⊎ ((relayer_ready d ≡ true)
            × (length orders < d.settings.relayer_max_open_orders_per_maker)
            × (preflight_gate d.settings ledger orders o ≡ none))
  unfolding relayer_gate
  relayer_gate-none orders o h = elim (Bool-cases d.settings.relayer_enabled) [
    | inr e ↦ inl e
    | inl e ↦
        let cap =
          need (ltb (length orders) d.settings.relayer_max_open_orders_per_maker)
            Refusal.too_many_open in
        let a =
          first_of-none (need (relayer_ready d) Refusal.relayer_misconfigured) _
            (enabled orders o e ∙ h) in
        let b = first_of-none cap (preflight_gate d.settings ledger orders o) a.1 in
        inr (need-true (relayer_ready d) _ a.0, ltb→lt _ _ (need-true _ _ b.0), b.1)
  ]

  given_hash :
      (given : Option ℕ) (digest : ℕ)
      → is_number given ≡ true
      → (digest == number given) ≡ true
      → given ≡ some digest
  given_hash none digest h e = absurd (ground (arith, h))
  given_hash (some n) digest h e = ground (arith, e)

  same_user :
      (maker : Option ℕ) → (is_number maker && number maker == user) ≡ true → number maker ≡ user
  same_user none h = absurd (ground (arith, h))
  same_user (some n) h = ground (arith, h)

  not_halted : (halt : Option HaltReason) → halt_gate halt ≡ none → halt ≡ none
  not_halted none h = refl
  not_halted (some why) h = absurd (ground (arith, h))

  not_found : (row : Option Order) → fresh_gate row ≡ none → row ≡ none
  not_found none h = refl
  not_found (some o) h = absurd (ground (arith, h))

  -- The digest does not depend on the row's id and hash.
  digest_row :
      (domain : Domain)
      → (row_of c body id domain).order_hash ≡ order_digest c (row_of c body id domain) domain
  unfolding order_digest order_of
  digest_row domain = refl

  accepted :
      (domain : Domain)
      → d.domain ≡ some domain
      → early_gate c d w.db now user body ≡ none
      → late_gate c d w.db ledger now body (row_of c body id domain) domain ≡ none
      → Accepted domain (row_of c body id domain)
  unfolding early_gate late_gate order_of
  accepted domain e f g =
      let o = row_of c body id domain in
      let session =
        first_of-none
          (need (is_number body.maker && number body.maker == user) Refusal.maker_mismatch) _ f in
      let fields = first_of-none (check_fields body) _ session.1 in
      let signing = first_of-none (signing_gate c body o domain) _ g in
      let hashed =
        first_of-none
          (need (order_digest c o domain == number body.order_hash) Refusal.hash_mismatch) _
          signing.0 in
      let timely =
        first_of-none
          (need (ltb (now + d.settings.relayer_min_expiry_seconds) o.expiry) Refusal.order_expired)
          _ signing.1 in
      let fresh =
        first_of-none (fresh_gate (find order_hash_key o.order_hash w.db.orders)) _ timely.1 in
      record {
        domain_is = e;
        own = same_user body.maker (need-true _ _ session.0);
        unfilled = refl;
        uncancelled = refl;
        bounds = (check_fields_bounds body id o.order_hash fields.0).0;
        fields = (check_fields_bounds body id o.order_hash fields.0).1;
        open_market = not_halted _ fields.1;
        hash_is = digest_row domain;
        hash_given =
            given_hash body.order_hash o.order_hash (hash_field body fields.0)
              (need-true _ _ hashed.0);
        signed = need-true _ _ hashed.1;
        unexpired = ltb→lt _ _ (need-true _ _ timely.0);
        unique = not_found _ fresh.0;
        relayed = relayer_gate-none (open_orders w.db.orders o.maker o.nonce now) o fresh.1;
      }

  post_signed-Ends :
      (domain : Option Domain)
      → d.domain ≡ domain
      → early_gate c d w.db now user body ≡ none
      → Ends (post_signed c d w ledger now id raced body domain)
  unfolding post_signed
  post_signed-Ends none e f = inr (Refusal.exchange_missing, refl)
  post_signed-Ends (some domain) e f =
      stored raced (late_gate c d w.db ledger now body (row_of c body id domain) domain) refl
    where
      stored :
          (b : Bool) (g : Option Refusal)
          → late_gate c d w.db ledger now body (row_of c body id domain) domain ≡ g
          → Ends (store_order c d w now b (row_of c body id domain) g)
      stored false none g = inl (domain, row_of c body id domain, accepted domain e f g, refl)
      stored true none g = inr (Refusal.duplicate, refl)
      stored b (some why) g = inr (why, refl)

  -- A call that is refused changes nothing. Any other stores the order and matches it, and then: the
  -- maker is the session's account, the stored columns are the body's fields, each in its range, the
  -- salt below 2 ^ 256, the market is open, the stored hash is the digest for the configured Exchange
  -- and the hash that the body gives, the signature recovers to the maker, the expiry is past the
  -- margin, the hash is new, and where the relayer is enabled it is ready, the maker has fewer open
  -- orders under the nonce than the cap, and the preflight, if it is switched on, finds nothing.
  pub post_order_lem : Ends (post_order c d w ledger now id raced user body)
  unfolding post_order
  post_order_lem = go (early_gate c d w.db now user body) refl
    where
      go :
          (g : Option Refusal)
          → early_gate c d w.db now user body ≡ g
          → Ends (after_early c d w ledger now id raced body g)
      go none e = post_signed-Ends d.domain refl e
      go (some why) e = inr (why, refl)

  -- No order of the book is overfilled by posting one.
  pub post_order-Within : AllWithin w → AllWithin (post_order c d w ledger now id raced user body).0
  post_order-Within h = elim post_order_lem [
    | inr (why, e) ↦ subst (λ (r : World × Posted). AllWithin r.0) (sym e) h
    | inl (domain, o, a, e) ↦
        subst (λ (r : World × Posted). AllWithin r.0) (sym e)
          (try_match-Within d now (with_row c w o) o
            (All-append Within w.db.orders (o ∷ []) h (ground (arith, a.unfilled), tt)))
  ]
