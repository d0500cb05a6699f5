-- ===== src/Orderbook/Match/Complete.antt =====
-- The loop of `try_match` (backend/app/orderbook/matcher.py) while no other session writes: the sum of
-- the fills, and the makers that are left.
use over_under.Prelude.{
  ℕ, ◌+◌, ◌≤◌, ◌<◌, ◌≡◌, ◌≢◌, ◌⊎◌, inl, inr, refl, Bool, true, false, List, [], ◌∷◌, arith, All,
  All-both, sum_by, sum_by-append, none, some, leb, Bool-cases, sym, ap, ◌∙◌, ◌||◌,
}
use native.Mathlib.Decide.{dec_lt}
use over_under.Prelude.Table.{find, Keyed, find-none-All}
use over_under.Settings.{Settings}
use over_under.Db.{Order, order_key}
use over_under.Orderbook.Rows.{World, remaining}
use over_under.Orderbook.Match.{Fill, Matching, record_fill, after_try, match_makers}
use over_under.Orderbook.Match.Quiet.{
  IsQuiet, Synced, filled_by, taken, qty_for, both_taken, attempt_none, attempt_quiet, taken-Synced,
  taken-others,
}

abbrev pub amount_of : Fill → ℕ
amount_of f = f.fill_amount

-- The row of the maker has nothing left.
abbrev pub Exhausted : World → Order → Type 0
Exhausted w maker = (r : Order) × (find order_key maker.id w.db.orders ≡ some r) × (remaining r ≡ 0)

-- A maker whose object is its live row, and another row than the incoming order's.
pub record Ready (w : World) (incoming maker : Order) : Type 0 where
  pub live : maker.cancelled ≡ false
  pub other : maker.id ≢ incoming.id
  pub synced : Synced w maker

pub record Start (m : Matching) : Type 0 where
  pub quiet : IsQuiet m.world
  pub live : m.incoming.cancelled ≡ false
  pub within : m.incoming.filled ≤ m.incoming.amount
  pub synced : Synced m.world m.incoming

-- From `m` the loop over `makers` ends in `m'`.
pub record Matched (makers : List Order) (m m' : Matching) : Type 0 where
  pub synced : Synced m'.world m'.incoming
  pub same_id : m'.incoming.id ≡ m.incoming.id
  pub same_amount : m'.incoming.amount ≡ m.incoming.amount
  pub within : m'.incoming.filled ≤ m'.incoming.amount
  pub adds_up :
      sum_by amount_of m'.fills + m.incoming.filled ≡ m'.incoming.filled + sum_by amount_of m.fills
  pub untouched :
      (j : ℕ)
      → j ≢ m.incoming.id
      → find order_key j makers ≡ none
      → find order_key j m'.world.db.orders ≡ find order_key j m.world.db.orders
  pub outcome : (remaining m'.incoming ≡ 0) ⊎ All (Exhausted m'.world) makers

stay : (m : Matching) → Start m → Matched [] m m
stay m h = record {
  synced = h.synced;
  same_id = refl;
  same_amount = refl;
  within = h.within;
  adds_up = omega arith;
  untouched = λ j ne e. refl;
  outcome = inr tt;
}

abbrev recorded : Settings → Bool → ℕ → Matching → Order → Matching
recorded s relay now m maker =
    record_fill s relay now m maker (qty_for m.incoming maker) (both_taken m.world m.incoming maker)
      (filled_by m.incoming (qty_for m.incoming maker))

-- A recorded fill leaves the orders as the two updates did.
recorded_lem :
    (s : Settings) (relay : Bool) (now : ℕ) (m : Matching) (maker : Order)
    → let n = recorded s relay now m maker in
      (n.world.db.orders ≡ (both_taken m.world m.incoming maker).db.orders)
      × (n.world.others ≡ m.world.others)
      × (n.incoming ≡ filled_by m.incoming (qty_for m.incoming maker))
      × (sum_by amount_of n.fills ≡ sum_by amount_of m.fills + qty_for m.incoming maker)
unfolding record_fill
recorded_lem s true now m maker =
    (refl, refl, refl, omega (arith, sum_by-append amount_of m.fills _))
recorded_lem s false now m maker =
    (refl, refl, refl, omega (arith, sum_by-append amount_of m.fills _))

-- The rows after a fill.
module _ (w : World) (incoming maker : Order) (start : IsQuiet w)
    (live : incoming.cancelled ≡ false) (within : incoming.filled ≤ incoming.amount)
    (synced : Synced w incoming) (ready : Ready w incoming maker)
    (pos : 0 < qty_for incoming maker) where
  both-incoming : Synced (both_taken w incoming maker) (filled_by incoming (qty_for incoming maker))
  both-incoming =
      taken-Synced (taken w maker (qty_for incoming maker)) incoming (qty_for incoming maker) live
        (omega arith)
        (taken-others w maker (qty_for incoming maker) incoming.id (λ e. ready.other (sym e))
          ∙ synced)

  both-maker :
      find order_key maker.id (both_taken w incoming maker).db.orders
      ≡ some (filled_by maker (qty_for incoming maker))
  both-maker =
      taken-others (taken w maker (qty_for incoming maker)) incoming (qty_for incoming maker)
        maker.id ready.other
      ∙ taken-Synced w maker (qty_for incoming maker) ready.live (omega arith) ready.synced

  both-others :
      (j : ℕ)
      → j ≢ incoming.id
      → j ≢ maker.id
      → find order_key j (both_taken w incoming maker).db.orders ≡ find order_key j w.db.orders
  both-others j ni nm =
      taken-others (taken w maker (qty_for incoming maker)) incoming (qty_for incoming maker) j ni
      ∙ taken-others w maker (qty_for incoming maker) j nm

module _ (s : Settings) (relay : Bool) (now : ℕ) (m : Matching) (maker : Order) (rest : List Order)
    (start : Start m) (ready : Ready m.world m.incoming maker)
    (once : find order_key maker.id rest ≡ none) where
  next : Matching
  next = recorded s relay now m maker

  next-Start : 0 < qty_for m.incoming maker → Start next
  unfolding next
  next-Start pos =
      let (rows, others, same, _) = recorded_lem s relay now m maker in
      record {
        quiet = others ∙ start.quiet;
        live = rw same start.live;
        within = rw same (omega arith);
        synced =
            rw (rows, same)
              (both-incoming m.world m.incoming maker start.quiet start.live start.within
                start.synced ready pos);
      }

  -- The makers that are left are as ready as before.
  next-Ready :
      0 < qty_for m.incoming maker
      → All (Ready m.world m.incoming) rest
      → All (Ready next.world next.incoming) rest
  unfolding next
  next-Ready pos readies =
      let (rows, others, same, _) = recorded_lem s relay now m maker in
      All-both (Ready m.world m.incoming) (λ o. o.id ≢ maker.id) _ rest
        (λ o r ne. record {
          live = r.live;
          other = rw same r.other;
          synced = rw rows (
              both-others m.world m.incoming maker start.quiet start.live start.within start.synced
                ready pos o.id r.other ne
              ∙ r.synced);
        })
        readies (find-none-All order_key maker.id rest once)

  next-Exhausted :
      0 < qty_for m.incoming maker → remaining next.incoming ≢ 0 → Exhausted next.world maker
  unfolding next
  next-Exhausted pos more =
      let (rows, others, same, _) = recorded_lem s relay now m maker in
      (
        filled_by maker (qty_for m.incoming maker),
        rw rows (
            both-maker m.world m.incoming maker start.quiet start.live start.within start.synced
              ready pos),
        let left : remaining (filled_by m.incoming (qty_for m.incoming maker)) ≢ 0 =
              rw same at more in
            omega arith,
      )

  -- What the loop does behind this fill, it does from here, once the outcome is known.
  next-Matched :
      0 < qty_for m.incoming maker
      → (m' : Matching) (behind : List Order) → Matched behind next m'
      → ((j : ℕ) → find order_key j rest ≡ none → find order_key j behind ≡ none)
      → (remaining m'.incoming ≡ 0) ⊎ All (Exhausted m'.world) (maker ∷ rest)
      → Matched (maker ∷ rest) m m'
  unfolding next
  next-Matched pos m' behind k fewer end =
      let (rows, others, same, sums) = recorded_lem s relay now m maker in
      record {
        synced = k.synced;
        same_id = k.same_id ∙ ap order_key same;
        same_amount = k.same_amount ∙ ap (λ o. o.amount) same;
        within = k.within;
        adds_up = omega (arith, k.adds_up, sums, ap (λ o. o.filled) same);
        untouched = λ j ne absent.
            let rest_absent : find order_key j rest ≡ none = ground arith in
            k.untouched j (λ e. ne (e ∙ ap order_key same)) (fewer j rest_absent)
            ∙ rw rows (
                both-others m.world m.incoming maker start.quiet start.live start.within
                  start.synced ready pos j ne (ground arith));
        outcome = end;
      }

  next-ends :
      0 < qty_for m.incoming maker → remaining next.incoming ≡ 0 → Matched (maker ∷ rest) m next
  next-ends pos full =
      next-Matched pos next [] (stay next (next-Start pos)) (λ j e. refl) (inl full)

  next-goes_on :
      0 < qty_for m.incoming maker
      → (m' : Matching) → remaining next.incoming ≢ 0
      → Matched rest next m'
      → Matched (maker ∷ rest) m m'
  next-goes_on pos m' more k = next-Matched pos m' rest k (λ j e. e) (end k.outcome)
    where
      same : next.incoming ≡ filled_by m.incoming (qty_for m.incoming maker)
      same = unfold next in (recorded_lem s relay now m maker).2

      kept : Exhausted m'.world maker
      kept =
          let (r, found, empty) = next-Exhausted pos more in
          (r, k.untouched maker.id (λ e. ready.other (e ∙ ap order_key same)) once ∙ found, empty)

      end :
          (remaining m'.incoming ≡ 0) ⊎ All (Exhausted m'.world) rest
          → (remaining m'.incoming ≡ 0) ⊎ All (Exhausted m'.world) (maker ∷ rest)
      end (inl full) = inl full
      end (inr all) = inr (kept, all)

-- An incoming order with nothing left ends the loop.
stop-Matched :
    (m : Matching) (makers : List Order) → Start m → remaining m.incoming ≡ 0 → Matched makers m m
stop-Matched m makers start full = record {
  synced = start.synced;
  same_id = refl;
  same_amount = refl;
  within = start.within;
  adds_up = omega arith;
  untouched = λ j ne e. refl;
  outcome = inl full;
}

-- A maker with nothing left is passed over.
module _ (m : Matching) (maker : Order) (rest : List Order) (start : Start m)
    (ready : Ready m.world m.incoming maker) (once : find order_key maker.id rest ≡ none) where
  skip-Matched :
      (m' : Matching) → remaining maker ≡ 0 → Matched rest m m' → Matched (maker ∷ rest) m m'
  skip-Matched m' empty k = record {
    synced = k.synced;
    same_id = k.same_id;
    same_amount = k.same_amount;
    within = k.within;
    adds_up = k.adds_up;
    untouched = λ j ne absent. k.untouched j ne (ground arith);
    outcome = elim k.outcome [
      | inl full ↦ inl full
      | inr all ↦ inr ((maker, k.untouched maker.id ready.other once ∙ ready.synced, empty), all)
    ];
  }

pub quiet_loop :
    (s : Settings) (relay : Bool) (now : ℕ) (makers : List Order) (m : Matching)
    → Start m
    → All (Ready m.world m.incoming) makers
    → Keyed order_key makers
    → Matched makers m (match_makers s relay now makers m)
unfolding match_makers after_try next
quiet_loop s relay now [] m start readies keyed = stay m start
quiet_loop s relay now (maker ∷ rest) m start readies keyed =
    elim (dec_lt 0 (qty_for m.incoming maker)) [
      | no none_left ↦
          rw (attempt_none 1 m.world m.incoming maker (omega arith))
            (elim (Bool-cases (m.incoming.cancelled || leb (remaining m.incoming) 0)) [
              | inl full ↦
                  rw full (stop-Matched m (maker ∷ rest) start (ground (arith, start.live)))
              | inr more ↦ rw more (
                  skip-Matched m maker rest start readies.0 keyed.0 _ (ground (arith, start.live))
                    (quiet_loop s relay now rest m start readies.1 keyed.1))
            ])
      | yes pos ↦
          rw
            (attempt_quiet 1 m.world m.incoming maker start.quiet start.live readies.0.live
              readies.0.other start.synced readies.0.synced pos)
            (elim (Bool-cases (leb (remaining o') 0)) [
              | inl full ↦ rw full (
                  next-ends s relay now m maker rest start readies.0 keyed.0 pos
                    (rw same (ground arith)))
              | inr more ↦ rw more (
                  next-goes_on s relay now m maker rest start readies.0 keyed.0 pos _
                    (rw same (λ e. ground arith))
                    (quiet_loop s relay now rest n
                      (next-Start s relay now m maker rest start readies.0 keyed.0 pos)
                      (next-Ready s relay now m maker rest start readies.0 keyed.0 pos readies.1)
                      keyed.1))
            ])
    ]
  where
    o' : Order
    o' = filled_by m.incoming (qty_for m.incoming maker)

    n : Matching
    n = recorded s relay now m maker

    same : n.incoming ≡ o'
    same = (recorded_lem s relay now m maker).2
