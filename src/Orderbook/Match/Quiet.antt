-- ===== src/Orderbook/Match/Quiet.antt =====
-- One maker's tries while no other session writes: the object of an order is its row.
use over_under.Prelude.{
  ℕ, suc, ◌+◌, ◌≤◌, ◌<◌, ◌≡◌, ◌≢◌, refl, true, false, List, [], ◌∷◌, arith, min, some, leb, ap, sym,
  ◌∙◌,
}
use over_under.Prelude.Table.{find, modify, find-modify_self, find-modify_ne}
use over_under.Db.{Db, Order, order_key}
use over_under.Orderbook.Rows.{
  Write, World, arrive, arrive_with, remaining, take, refresh, add_filled, has_room,
}
use over_under.Orderbook.Match.{filled, nothing, attempt}

abbrev pub IsQuiet : World → Type 0
IsQuiet w = w.others ≡ []

-- The object is the row as it stands.
abbrev pub Synced : World → Order → Type 0
Synced w o = find order_key o.id w.db.orders ≡ some o

abbrev pub filled_by : Order → ℕ → Order
filled_by o qty = record o { filled = o.filled + qty }

-- The world after a successful `_take`.
abbrev pub taken : World → Order → ℕ → World
taken w o qty = record w {
  db = record w.db { orders = modify order_key o.id (add_filled qty) w.db.orders };
}

arrive_with_quiet :
    (db : Db) (others : List (List (ℕ × Write)))
    → others ≡ []
    → arrive_with db others ≡ record { db = db; others = others }
arrive_with_quiet db [] q = refl
arrive_with_quiet db (ws ∷ rest) q = cc

arrive_quiet : (w : World) → IsQuiet w → arrive w ≡ w
unfolding arrive
arrive_quiet w q = arrive_with_quiet w.db w.others q

add_filled-key : (qty : ℕ) (o : Order) → order_key (add_filled qty o) ≡ order_key o
add_filled-key qty o = ground arith

add_filled_lem :
    (o : Order) (qty : ℕ)
    → o.cancelled ≡ false
    → o.filled + qty ≤ o.amount
    → add_filled qty o ≡ filled_by o qty
add_filled_lem o qty live room = ground arith

pub taken-Synced :
    (w : World) (o : Order) (qty : ℕ)
    → o.cancelled ≡ false
    → o.filled + qty ≤ o.amount
    → Synced w o
    → Synced (taken w o qty) (filled_by o qty)
taken-Synced w o qty live room s =
    find-modify_self order_key o.id (add_filled qty) w.db.orders o (add_filled-key qty) s
    ∙ ap some (add_filled_lem o qty live room)

pub taken-others :
    (w : World) (o : Order) (qty j : ℕ)
    → j ≢ o.id
    → find order_key j (taken w o qty).db.orders ≡ find order_key j w.db.orders
taken-others w o qty j ne =
    find-modify_ne order_key o.id (add_filled qty) j w.db.orders (add_filled-key qty) ne

take_quiet :
    (w : World) (o : Order) (qty : ℕ)
    → IsQuiet w
    → o.cancelled ≡ false
    → o.filled + qty ≤ o.amount
    → Synced w o
    → take w o qty ≡ (true, filled_by o qty, taken w o qty)
unfolding take refresh
take_quiet w o qty q live room s =
    let roomy : has_room qty o ≡ true = ground arith in
    rw (arrive_quiet w q, arrive_quiet (taken w o qty) q, s, taken-Synced w o qty live room s)
      (rw roomy)

-- The quantity that the loop computes for a maker.
abbrev pub qty_for : Order → Order → ℕ
qty_for incoming maker = min (remaining incoming) (remaining maker)

-- The world after a fill with a maker.
abbrev pub both_taken : World → Order → Order → World
both_taken w incoming maker =
    taken (taken w maker (qty_for incoming maker)) incoming (qty_for incoming maker)

pub attempt_none :
    (n : ℕ) (w : World) (incoming maker : Order)
    → qty_for incoming maker ≡ 0
    → attempt (suc n) w incoming maker ≡ nothing incoming w
unfolding attempt
attempt_none n w incoming maker e = rw e refl

pub attempt_quiet :
    (n : ℕ) (w : World) (incoming maker : Order)
    → IsQuiet w
    → incoming.cancelled ≡ false
    → maker.cancelled ≡ false
    → maker.id ≢ incoming.id
    → Synced w incoming
    → Synced w maker
    → 0 < qty_for incoming maker
    → attempt (suc n) w incoming maker
      ≡ filled
          (qty_for incoming maker)
          (filled_by incoming (qty_for incoming maker))
          (both_taken w incoming maker)
unfolding attempt
attempt_quiet n w incoming maker q live live' ne s s' pos =
    rw (first, second, ground_pos, live') refl
  where
    qty : ℕ
    qty = qty_for incoming maker

    room : maker.filled + qty ≤ maker.amount
    room = omega arith

    room' : incoming.filled + qty ≤ incoming.amount
    room' = omega arith

    first : take w maker qty ≡ (true, filled_by maker qty, taken w maker qty)
    first = take_quiet w maker qty q live' room s'

    second :
        take (taken w maker qty) incoming qty
        ≡ (true, filled_by incoming qty, both_taken w incoming maker)
    second =
        take_quiet (taken w maker qty) incoming qty q live room'
          (taken-others w maker qty incoming.id (λ e. ne (sym e)) ∙ s)

    ground_pos : leb qty 0 ≡ false
    ground_pos = ground arith
