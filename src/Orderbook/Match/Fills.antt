-- ===== src/Orderbook/Match/Fills.antt =====
-- What each fill of a match is, whatever other sessions write between the statements.
use mathlib.Core.List.{Mem}
use over_under.Prelude.{
  ℕ, zero, suc, ◌+◌, ◌*◌, ◌≤◌, ◌<◌, ◌≡◌, refl, Bool, true, false, List, [], arith, All, All-append,
  All-map, min, Option, Bool-cases, inl, inr, none, some,
}
use over_under.Settings.{Settings, Deployment, relayer_ready}
use over_under.Market.{HaltReason, trading_halt_reason}
use over_under.Db.{Order, TradeStatus}
use over_under.Orderbook.Rows.{World, remaining, crosses, take, give_back, refresh, refreshed}
use over_under.Orderbook.Match.{
  Try, filled, nothing, stopped, attempt, Fill, Matching, volume_of, fee_of, fill_of, record_fill,
  can_make, match_makers, makers_of, unless_halted, try_match,
}
use over_under.Orderbook.Match.Loop.{Ends, match_makers_inv}
use over_under.Orderbook.Match.Priority.{makers_of-Seen, Seen}

-- The columns of an order that no statement of a match writes.
pub record SameOrder (a b : Order) : Type 0 where
  pub same_hash : b.order_hash ≡ a.order_hash
  pub same_side : b.is_buy ≡ a.is_buy
  pub same_price : b.price ≡ a.price
  pub same_amount : b.amount ≡ a.amount

refreshed-SameOrder : (o : Order) (r : Option Order) → SameOrder o (refreshed o r)
refreshed-SameOrder o none = ground arith
refreshed-SameOrder o (some r) = ground arith

refresh-SameOrder : (w : World) (o : Order) → SameOrder o (refresh w o).0
unfolding refresh
refresh-SameOrder w o = refreshed-SameOrder o _

take-SameOrder : (w : World) (o : Order) (qty : ℕ) → SameOrder o (take w o qty).1
unfolding take
take-SameOrder w o qty = refreshed-SameOrder o _

give_back-SameOrder : (w : World) (o : Order) (qty : ℕ) → SameOrder o (give_back w o qty).0
unfolding give_back
give_back-SameOrder w o qty = refreshed-SameOrder o _

SameOrder-refl : (o : Order) → SameOrder o o
SameOrder-refl o = ground arith

SameOrder-trans : (a b c : Order) → SameOrder a b → SameOrder b c → SameOrder a c
SameOrder-trans a b c h k = ground arith

-- How the tries for a maker end: the object is still the incoming order, and a quantity that was
-- taken is positive and within both amounts.
abbrev TryOf : Order → Order → Try → Type 0
TryOf incoming maker (filled qty o w) =
    SameOrder incoming o × (0 < qty) × (qty ≤ incoming.amount) × (qty ≤ maker.amount)
TryOf incoming maker (nothing o w) = SameOrder incoming o
TryOf incoming maker (stopped o w) = SameOrder incoming o

attempt-TryOf :
    (n : ℕ) (w : World) (i₀ m₀ incoming maker : Order)
    → SameOrder i₀ incoming
    → SameOrder m₀ maker
    → TryOf i₀ m₀ (attempt n w incoming maker)
unfolding attempt
attempt-TryOf zero w i₀ m₀ incoming maker i m = i
attempt-TryOf (suc n) w i₀ m₀ incoming maker i m = ground (
  arith,
  incoming',
  attempt-TryOf n t₁.2 i₀ m₀ incoming t₁.1 i maker',
  attempt-TryOf n g.1 i₀ m₀ t₂.1 g.0 incoming' maker'',
)
  where
    qty : ℕ
    qty = min (remaining incoming) (remaining maker)

    t₁ : Bool × Order × World
    t₁ = take w maker qty

    t₂ : Bool × Order × World
    t₂ = take t₁.2 incoming qty

    g : Order × World
    g = give_back t₂.2 t₁.1 qty

    maker' : SameOrder m₀ t₁.1
    maker' = SameOrder-trans m₀ maker t₁.1 m (take-SameOrder w maker qty)

    incoming' : SameOrder i₀ t₂.1
    incoming' = SameOrder-trans i₀ incoming t₂.1 i (take-SameOrder t₁.2 incoming qty)

    maker'' : SameOrder m₀ g.0
    maker'' = SameOrder-trans m₀ t₁.1 g.0 maker' (give_back-SameOrder t₂.2 t₁.1 qty)

-- A fill against a maker: that maker is a row of the book and crosses the incoming order, the quantity
-- is positive and within both amounts, and volume and fee are the matcher's at that row's price.
pub record FillOf (s : Settings) (min_expiry : ℕ) (rows : List Order) (incoming : Order) (f : Fill)
    : Type 0 where
  pub maker : Order
  pub in_book : Mem maker rows
  pub crossing : crosses incoming maker min_expiry ≡ true
  pub against : f.maker_hash ≡ maker.order_hash
  pub taken_by : f.taker_hash ≡ incoming.order_hash
  pub positive : 0 < f.fill_amount
  pub within_incoming : f.fill_amount ≤ incoming.amount
  pub within_maker : f.fill_amount ≤ maker.amount
  pub volume_eq : f.volume ≡ volume_of f.fill_amount maker.price
  pub fee_eq : f.fee ≡ fee_of f.volume s.fee_bps_taker

volume_of_mono : (qty p q : ℕ) → p ≤ q → volume_of qty p ≤ volume_of qty q
volume_of_mono qty p q h = let k : qty * p ≤ qty * q = grind arith in omega arith

-- The incoming order never pays more, as a buyer, and never gets less, as a seller, than its limit.
limit_lem :
    (incoming maker : Order) (min_expiry qty : ℕ)
    → crosses incoming maker min_expiry ≡ true
    → (incoming.is_buy ≡ true → volume_of qty maker.price ≤ volume_of qty incoming.price)
      × (incoming.is_buy ≡ false → volume_of qty incoming.price ≤ volume_of qty maker.price)
unfolding crosses
limit_lem incoming maker min_expiry qty h = (
  λ b. volume_of_mono qty maker.price incoming.price (ground arith),
  λ b. volume_of_mono qty incoming.price maker.price (ground arith),
)

module _ (d : Deployment) (now : ℕ) (rows : List Order) (i₀ : Order) where
  abbrev min_expiry : ℕ
  min_expiry = now + d.settings.relayer_min_expiry_seconds

  abbrev Filling : Matching → Type 0
  Filling m = SameOrder i₀ m.incoming × All (FillOf d.settings min_expiry rows i₀) m.fills

  can_make-crosses :
      (maker : Order) → can_make i₀ min_expiry maker ≡ true → crosses i₀ maker min_expiry ≡ true
  can_make-crosses maker h = ground arith

  fill_of-FillOf :
      (maker incoming : Order) (qty : ℕ) (status : TradeStatus) (job : Option ℕ)
      → Seen i₀ min_expiry rows maker
      → SameOrder i₀ incoming × (0 < qty) × (qty ≤ i₀.amount) × (qty ≤ maker.amount)
      → FillOf d.settings min_expiry rows i₀ (fill_of incoming maker qty d.settings status job)
  fill_of-FillOf maker incoming qty status job can t = record {
    maker = maker;
    in_book = can.0;
    crossing = can_make-crosses maker can.1;
    against = refl;
    taken_by = t.0.same_hash;
    positive = t.1;
    within_incoming = t.2;
    within_maker = t.3;
    volume_eq = refl;
    fee_eq = refl;
  }

  record_fill-Filling :
      (relay : Bool) (m : Matching) (maker : Order) (qty : ℕ) (w : World) (incoming : Order)
      → Filling m
      → Seen i₀ min_expiry rows maker
      → SameOrder i₀ incoming × (0 < qty) × (qty ≤ i₀.amount) × (qty ≤ maker.amount)
      → Filling (record_fill d.settings relay now m maker qty w incoming)
  unfolding record_fill
  record_fill-Filling true m maker qty w incoming h can t =
      (t.0, All-append _ m.fills _ h.1 (fill_of-FillOf maker incoming qty _ _ can t, tt))
  record_fill-Filling false m maker qty w incoming h can t =
      (t.0, All-append _ m.fills _ h.1 (fill_of-FillOf maker incoming qty _ _ can t, tt))

  tries-Filling :
      (relay : Bool) (m : Matching) (maker : Order) (t : Try)
      → Filling m
      → Seen i₀ min_expiry rows maker
      → TryOf i₀ maker t
      → Ends d.settings relay now Filling m maker t
  tries-Filling relay m maker (filled qty o w) h can t =
      record_fill-Filling relay m maker qty w o h can t
  tries-Filling relay m maker (nothing o w) h can t = (t, h.1)
  tries-Filling relay m maker (stopped o w) h can t = (t, h.1)

  match_makers-Filling :
      (relay : Bool) (m : Matching)
      → Filling m
      → Filling (match_makers d.settings relay now (makers_of i₀ min_expiry rows) m)
  match_makers-Filling relay m =
      match_makers_inv d.settings relay now Filling (Seen i₀ min_expiry rows)
        (λ n maker h can.
          tries-Filling relay n maker (attempt 2 n.world n.incoming maker) h can
            (attempt-TryOf 2 n.world i₀ maker n.incoming maker h.0 (SameOrder-refl maker)))
        (makers_of i₀ min_expiry rows) m (makers_of-Seen i₀ min_expiry rows)

-- Every fill that a match returns is against a row of the book, as the match's SELECT reads it, that
-- crosses the incoming order. It names the hashes of that row and of the incoming order, its quantity
-- is positive and within both amounts, its volume is at that row's price and its fee is the taker's,
-- whatever other sessions write between the statements.
pub try_match-FillOf :
    (d : Deployment) (now : ℕ) (w : World) (incoming : Order)
    → All
        (FillOf d.settings (now + d.settings.relayer_min_expiry_seconds) w.db.orders incoming)
        (try_match d now w incoming).fills
unfolding try_match
try_match-FillOf d now w incoming = halted (trading_halt_reason _ _ _ _ _)
  where
    start : Matching
    start = record { world = w; incoming = incoming; fills = [] }

    run : Matching
    run =
        match_makers d.settings (relayer_ready d) now
          (makers_of incoming (now + d.settings.relayer_min_expiry_seconds) w.db.orders) start

    matched : Filling d now w.db.orders incoming run
    matched =
        match_makers-Filling d now w.db.orders incoming (relayer_ready d) start
          (SameOrder-refl incoming, tt)

    halted :
        (r : Option HaltReason)
        → All
            (FillOf d.settings (now + d.settings.relayer_min_expiry_seconds) w.db.orders incoming)
            (unless_halted r start run).fills
    halted none = matched.1
    halted (some r) = tt

-- A volume against the one at the limit price: not above it for a buyer, not below it for a seller.
abbrev pub NoWorse : Bool → ℕ → ℕ → Type 0
NoWorse true volume limit = volume ≤ limit
NoWorse false volume limit = limit ≤ volume

FillOf-limit :
    (s : Settings) (min_expiry : ℕ) (rows : List Order) (incoming : Order) (f : Fill)
    → FillOf s min_expiry rows incoming f
    → NoWorse incoming.is_buy f.volume (volume_of f.fill_amount incoming.price)
FillOf-limit s min_expiry rows incoming f h =
    let (buy, sell) = limit_lem incoming h.maker min_expiry f.fill_amount h.crossing in
    rw h.volume_eq
      (elim (Bool-cases incoming.is_buy) [ inl b ↦ rw b (buy b) | inr b ↦ rw b (sell b) ])

-- For each fill that a match returns, the incoming order pays no more than its own limit price, as a
-- buyer, and gets no less, as a seller.
pub try_match-limit :
    (d : Deployment) (now : ℕ) (w : World) (incoming : Order)
    → All
        (λ f. NoWorse incoming.is_buy f.volume (volume_of f.fill_amount incoming.price))
        (try_match d now w incoming).fills
try_match-limit d now w incoming =
    All-map _ _ _
      (FillOf-limit d.settings (now + d.settings.relayer_min_expiry_seconds) w.db.orders incoming)
      (try_match-FillOf d now w incoming)
