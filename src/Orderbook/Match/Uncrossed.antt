-- ===== src/Orderbook/Match/Uncrossed.antt =====
-- `try_match` (backend/app/orderbook/matcher.py) as a whole while no other session writes.
use over_under.Prelude.{
  ℕ, ◌+◌, ◌≤◌, ◌≡◌, ◌≢◌, ◌⊎◌, inl, inr, refl, Bool, true, false, List, [], ◌∷◌, arith, All,
  All-both, All-keep, keep, keep-All, sum_by, none, some, Bool-cases, Option-cases, sym, subst, ◌∙◌,
  ◌&&◌,
}
use over_under.Prelude.Table.{find, Keyed, Keyed-found, keep-Keyed, find-keep, find-key, find-All}
use over_under.Settings.{Deployment, relayer_ready}
use over_under.Market.{trading_halt_reason}
use over_under.Db.{Order, order_key}
use over_under.Orderbook.Rows.{World, remaining}
use over_under.Orderbook.Match.{
  Matching, insert, sort, before, resting, can_make, makers_of, try_match,
}
use over_under.Orderbook.Match.Quiet.{IsQuiet, Synced}
use over_under.Orderbook.Match.Priority.{sort-All}
use over_under.Orderbook.Match.Complete.{Ready, Matched, Exhausted, amount_of, quiet_loop}

-- Sorting keeps what is found under each id.
find-insert-none :
    (buy : Bool) (o : Order) (xs : List Order) (j : ℕ)
    → o.id ≢ j
    → find order_key j xs ≡ none
    → find order_key j (insert buy o xs) ≡ none
unfolding insert
find-insert-none buy o [] j ne e = ground arith
find-insert-none buy o (x ∷ xs) j ne e = elim (Bool-cases (before buy o x)) [
  | inl h ↦ rw h (ground arith)
  | inr h ↦ rw h (ground (arith, find-insert-none buy o xs j ne))
]

insert-Keyed :
    (buy : Bool) (o : Order) (xs : List Order)
    → find order_key o.id xs ≡ none
    → Keyed order_key xs
    → Keyed order_key (insert buy o xs)
unfolding insert
insert-Keyed buy o [] e u = (refl, tt)
insert-Keyed buy o (x ∷ xs) e u = elim (Bool-cases (before buy o x)) [
  | inl h ↦ rw h (e, u)
  | inr h ↦ rw h (
    find-insert-none buy o xs x.id (λ q. ground arith) u.0,
    insert-Keyed buy o xs (ground arith) u.1,
  )
]

find-sort-none :
    (buy : Bool) (xs : List Order) (j : ℕ)
    → find order_key j xs ≡ none
    → find order_key j (sort buy xs) ≡ none
unfolding sort
find-sort-none buy [] j e = refl
find-sort-none buy (x ∷ xs) j e =
    find-insert-none buy x (sort buy xs) j (λ q. ground arith)
      (find-sort-none buy xs j (ground arith))

sort-Keyed : (buy : Bool) (xs : List Order) → Keyed order_key xs → Keyed order_key (sort buy xs)
unfolding sort
sort-Keyed buy [] u = tt
sort-Keyed buy (x ∷ xs) u =
    insert-Keyed buy x (sort buy xs) (find-sort-none buy xs x.id u.0) (sort-Keyed buy xs u.1)

find-insert_some :
    (buy : Bool) (o : Order) (xs : List Order) (j : ℕ)
    → (o.id ≡ j) ⊎ (find order_key j xs ≢ none)
    → find order_key j (insert buy o xs) ≢ none
unfolding insert
find-insert_some buy o [] j h = ground arith
find-insert_some buy o (x ∷ xs) j h = elim (Bool-cases (before buy o x)) [
  | inl e ↦ rw e (ground arith)
  | inr e ↦ rw e (ground (arith, find-insert_some buy o xs j))
]

find-sort_some :
    (buy : Bool) (xs : List Order) (j : ℕ)
    → find order_key j xs ≢ none
    → find order_key j (sort buy xs) ≢ none
unfolding sort
find-sort_some buy [] j h = h
find-sort_some buy (x ∷ xs) j h =
    find-insert_some buy x (sort buy xs) j (ground (arith, find-sort_some buy xs j))

exhausted_lem :
    (incoming r : Order) (min_expiry : ℕ)
    → remaining r ≡ 0
    → (resting incoming min_expiry r && can_make incoming min_expiry r) ≡ false
exhausted_lem incoming r min_expiry empty = ground arith

module _ (d : Deployment) (now : ℕ) (w : World) (incoming : Order) (quiet : IsQuiet w)
    (keyed : Keyed order_key w.db.orders) (synced : Synced w incoming)
    (live : incoming.cancelled ≡ false) (within : incoming.filled ≤ incoming.amount)
    (open_market : trading_halt_reason w.db.markets w.db.listings incoming.condition_id d.settings
        now
      ≡ none) where
  abbrev min_expiry : ℕ
  min_expiry = now + d.settings.relayer_min_expiry_seconds

  abbrev makers : List Order
  makers = makers_of incoming min_expiry w.db.orders

  start : Matching
  start = record { world = w; incoming = incoming; fills = [] }

  makers-Ready : All (Ready w incoming) makers
  unfolding makers_of
  makers-Ready =
      sort-All (Ready w incoming) incoming.is_buy (keep (can_make incoming min_expiry) some_resting)
        (All-keep (Ready w incoming) (can_make incoming min_expiry) some_resting (
          All-both (λ o. resting incoming min_expiry o ≡ true) (Synced w) (Ready w incoming)
            some_resting (λ o r s. record { live = ground arith; other = ground arith; synced = s })
            (keep-All (resting incoming min_expiry) w.db.orders)
            (All-keep (Synced w) (resting incoming min_expiry) w.db.orders
              (Keyed-found order_key w.db.orders keyed))))
    where
      some_resting : List Order
      some_resting = keep (resting incoming min_expiry) w.db.orders

  makers-Keyed : Keyed order_key makers
  unfolding makers_of
  makers-Keyed = sort-Keyed incoming.is_buy _ (
      keep-Keyed order_key (can_make incoming min_expiry)
        (keep (resting incoming min_expiry) w.db.orders)
        (keep-Keyed order_key (resting incoming min_expiry) w.db.orders keyed))

  matched : Matched makers start (try_match d now w incoming)
  unfolding try_match start
  matched = rw open_market (
      quiet_loop d.settings (relayer_ready d) now makers start
        (record { quiet = quiet; live = live; within = within; synced = synced }) makers-Ready
        makers-Keyed)

  -- While no other session writes, the fills of a match in an open market are all that the incoming
  -- order is filled by: its new `filled`, within its amount and in its row too, is the old one and
  -- their sum.
  pub try_match_adds_up :
      let m = try_match d now w incoming in
      (m.incoming.filled ≡ incoming.filled + sum_by amount_of m.fills)
      × (m.incoming.filled ≤ incoming.amount)
      × (find order_key incoming.id m.world.db.orders ≡ some m.incoming)
  unfolding start
  try_match_adds_up = (
    omega (arith, matched.adds_up),
    omega (arith, matched.within, matched.same_amount),
    subst
        (λ k.
          find order_key k (try_match d now w incoming).world.db.orders
          ≡ some (try_match d now w incoming).incoming)
        matched.same_id matched.synced,
  )

  -- A row that is not a maker is no row that could have been one.
  find-makers :
      (j : ℕ) (r : Order)
      → find order_key j w.db.orders ≡ some r
      → resting incoming min_expiry r ≡ true
      → can_make incoming min_expiry r ≡ true
      → find order_key j makers ≢ none
  unfolding makers_of
  find-makers j r e h k =
      find-sort_some incoming.is_buy able j (λ (absent : find order_key j able ≡ none).
        let found : find order_key j able ≡ some r =
          find-keep order_key (can_make incoming min_expiry) j
            (keep (resting incoming min_expiry) w.db.orders) r
            (find-keep order_key (resting incoming min_expiry) j w.db.orders r e h) k in
        cc)
    where
      able : List Order
      able = keep (can_make incoming min_expiry) (keep (resting incoming min_expiry) w.db.orders)

  -- A row outside the makers is as it was, and could not have been one.
  others_uncrossed :
      (j : ℕ) (r : Order)
      → find order_key j (try_match d now w incoming).world.db.orders ≡ some r
      → find order_key j makers ≡ none
      → (resting incoming min_expiry r && can_make incoming min_expiry r) ≡ false
  unfolding start
  others_uncrossed j r e absent =
      elim (Bool-cases (resting incoming min_expiry r && can_make incoming min_expiry r)) [
        | inr fine ↦ fine
        | inl both ↦
            let id : r.id ≡ j = find-key order_key j _ r e in
            let ne : j ≢ incoming.id = λ h. ground arith in
            absurd (
              find-makers j r (sym (matched.untouched j ne absent) ∙ e) (ground arith)
                (ground arith) absent)
      ]

  -- While no other session writes, a match in an open market leaves no crossed book: either the
  -- incoming order is filled, or no row of the table rests against it, crosses it and has anything
  -- left.
  pub try_match_uncrossed :
      (j : ℕ) (r : Order)
      → find order_key j (try_match d now w incoming).world.db.orders ≡ some r
      → (remaining (try_match d now w incoming).incoming ≡ 0)
        ⊎ ((resting incoming min_expiry r && can_make incoming min_expiry r) ≡ false)
  try_match_uncrossed j r e = elim matched.outcome [
    | inl full ↦ inl full
    | inr all ↦ inr (elim (Option-cases (find order_key j makers)) [
      | inl absent ↦ others_uncrossed j r e absent
      | inr (maker, found) ↦
          let (row, there, empty) =
            find-All order_key (Exhausted (try_match d now w incoming).world) j makers maker all
              found in
          let id : maker.id ≡ j = find-key order_key j makers maker found in
          let there' : find order_key j (try_match d now w incoming).world.db.orders ≡ some row =
            subst (λ k. find order_key k (try_match d now w incoming).world.db.orders ≡ some row) id
              there in
          let same : row ≡ r = cc (there', e) in
          exhausted_lem incoming r min_expiry (subst (λ o. remaining o ≡ 0) same empty)
    ])
  ]
