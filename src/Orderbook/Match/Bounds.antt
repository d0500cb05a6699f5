-- ===== src/Orderbook/Match/Bounds.antt =====
-- The amounts of the orders under `try_match` (backend/app/orderbook/matcher.py), with other sessions'
-- writes between the statements.
use over_under.Prelude.{
  ℕ, ◌+◌, ◌≤◌, ◌≡◌, refl, zero, suc, Bool, true, false, Option, none, some, List, [], ◌∷◌, arith,
  All, All-trivial, min,
}
use over_under.Prelude.Table.{modify, All-modify}
use over_under.Settings.{Settings, Deployment, relayer_ready}
use over_under.Market.{HaltReason, trading_halt_reason}
use over_under.Db.{Db, Order, order_key}
use over_under.Orderbook.Rows.{
  Write, write, World, interleave, arrive, arrive_with, take, give_back, add_filled, sub_filled,
  remaining,
}
use over_under.Orderbook.Match.{
  Try, filled, nothing, stopped, attempt, Matching, record_fill, match_makers, makers_of,
  unless_halted, try_match,
}
use over_under.Orderbook.Match.Loop.{Ends, match_makers_inv}

abbrev pub Within : Order → Type 0
Within o = o.filled ≤ o.amount

abbrev pub AllWithin : World → Type 0
AllWithin w = All Within w.db.orders

write-Within : (c : Write) (r : Order) → Within r → Within (write c r)
write-Within (Write.takes qty) r h = ground arith
write-Within (Write.gives qty) r h = ground arith
write-Within (Write.lowers f) r h = ground arith
write-Within (Write.resyncs target) r h = ground arith
write-Within Write.cancels r h = h

interleave-Within :
    (ws : List (ℕ × Write)) (rows : List Order) → All Within rows → All Within (interleave ws rows)
unfolding interleave
interleave-Within [] rows h = h
interleave-Within ((id, c) ∷ ws) rows h =
    interleave-Within ws (modify order_key id (write c) rows)
      (All-modify order_key id (write c) Within rows (write-Within c) h)

arrive_with-Within :
    (db : Db) (others : List (List (ℕ × Write)))
    → All Within db.orders
    → AllWithin (arrive_with db others)
arrive_with-Within db [] h = h
arrive_with-Within db (ws ∷ rest) h = interleave-Within ws db.orders h

arrive-Within : (w : World) → AllWithin w → AllWithin (arrive w)
unfolding arrive
arrive-Within w h = arrive_with-Within w.db w.others h

take-Within : (w : World) (o : Order) (qty : ℕ) → AllWithin w → AllWithin (take w o qty).2
unfolding take
take-Within w o qty h = arrive-Within _ (
    All-modify order_key o.id (add_filled qty) Within (arrive w).db.orders
      (write-Within (Write.takes qty)) (arrive-Within w h))

give_back-Within : (w : World) (o : Order) (qty : ℕ) → AllWithin w → AllWithin (give_back w o qty).1
unfolding give_back
give_back-Within w o qty h = arrive-Within _ (
    All-modify order_key o.id (sub_filled qty) Within (arrive w).db.orders
      (write-Within (Write.gives qty)) (arrive-Within w h))

abbrev world_of : Try → World
world_of (filled qty o w) = w
world_of (nothing o w) = w
world_of (stopped o w) = w

attempt-Within :
    (n : ℕ) (w : World) (incoming maker : Order)
    → AllWithin w
    → AllWithin (world_of (attempt n w incoming maker))
unfolding attempt
attempt-Within zero w incoming maker h = h
attempt-Within (suc n) w incoming maker h = ground (
  arith,
  took,
  done,
  gave,
  attempt-Within n t₁.2 incoming t₁.1 took,
  attempt-Within n g.1 t₂.1 g.0 gave,
)
  where
    qty : ℕ
    qty = min (remaining incoming) (remaining maker)

    t₁ : Bool × Order × World
    t₁ = take w maker qty

    t₂ : Bool × Order × World
    t₂ = take t₁.2 incoming qty

    g : Order × World
    g = give_back t₂.2 t₁.1 qty

    took : AllWithin t₁.2
    took = take-Within w maker qty h

    done : AllWithin t₂.2
    done = take-Within t₁.2 incoming qty took

    gave : AllWithin g.1
    gave = give_back-Within t₂.2 t₁.1 qty done

record_fill-orders :
    (s : Settings) (relay : Bool) (now : ℕ) (m : Matching) (maker : Order) (qty : ℕ) (w : World)
    (incoming : Order)
    → (record_fill s relay now m maker qty w incoming).world.db.orders ≡ w.db.orders
unfolding record_fill
record_fill-orders s true now m maker qty w incoming = refl
record_fill-orders s false now m maker qty w incoming = refl

attempt-Ends :
    (s : Settings) (relay : Bool) (now : ℕ) (m : Matching) (maker : Order) (t : Try)
    → AllWithin (world_of t)
    → Ends s relay now (λ n. AllWithin n.world) m maker t
attempt-Ends s relay now m maker (stopped incoming w) h = h
attempt-Ends s relay now m maker (nothing incoming w) h = h
attempt-Ends s relay now m maker (filled qty incoming w) h =
    rw (record_fill-orders s relay now m maker qty w incoming) h

-- However other sessions' fills, rollbacks, resyncs and cancels fall between its statements, a match
-- leaves every order of the book filled at most to its amount, if every order was.
pub try_match-Within :
    (d : Deployment) (now : ℕ) (w : World) (incoming : Order)
    → AllWithin w
    → AllWithin (try_match d now w incoming).world
unfolding try_match
try_match-Within d now w incoming h = halted (trading_halt_reason _ _ _ _ _)
  where
    makers : List Order
    makers = makers_of incoming (now + d.settings.relayer_min_expiry_seconds) w.db.orders

    start : Matching
    start = record { world = w; incoming = incoming; fills = [] }

    matched : AllWithin (match_makers d.settings (relayer_ready d) now makers start).world
    matched =
        match_makers_inv d.settings (relayer_ready d) now (λ n. AllWithin n.world) (λ o. Unit {0})
          (λ m maker k _.
            attempt-Ends _ _ _ m maker _ (attempt-Within 2 m.world m.incoming maker k))
          makers start (All-trivial makers) h

    halted :
        (r : Option HaltReason)
        → AllWithin
            (unless_halted r start
              (match_makers d.settings (relayer_ready d) now makers start)).world
    halted none = matched
    halted (some r) = h
