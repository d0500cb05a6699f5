-- ===== src/Orderbook/Rows.antt =====
-- Order rows: crossing, the guarded updates of `filled`, and what other sessions may do between two
-- statements (backend/app/orderbook/matcher.py).
use over_under.Prelude.{
  ℕ, ◌+◌, ◌-◌, Bool, true, false, not, ◌&&◌, ◌||◌, Option, none, some, List, [], ◌∷◌, ltb, leb,
  ◌==◌, same_flag, if◌then◌else◌,
}
use over_under.Prelude.Table.{find, modify}
use over_under.Db.{Db, Order, order_key}

abbrev pub remaining : Order → ℕ
remaining o = o.amount - o.filled

-- `_crosses`
unfoldable pub crosses : Order → Order → ℕ → Bool
crosses taker maker min_expiry =
    if not (taker.condition_id == maker.condition_id)
    then false
    else if not (taker.outcome == maker.outcome)
    then false
    else if same_flag taker.is_buy maker.is_buy
    then false
    else if taker.cancelled || maker.cancelled
    then false
    else if taker.maker == maker.maker
    then false
    else if leb taker.expiry min_expiry || leb maker.expiry min_expiry
    then false
    else if taker.is_buy
    then leb maker.price taker.price
    else leb taker.price maker.price

-- What another session writes to a row: a match takes, a failed match gives back, a rollback lowers,
-- the worker resyncs from chain (capped at the amount), a cancel.
pub data Write : Type 0 where
  takes gives lowers resyncs : ℕ → Write
  cancels : Write

-- `Order.cancelled.is_(False), Order.filled + qty <= Order.amount`
abbrev pub has_room : ℕ → Order → Bool
has_room qty r = not r.cancelled && leb (r.filled + qty) r.amount

abbrev pub add_filled : ℕ → Order → Order
add_filled qty r = if has_room qty r then record r { filled = r.filled + qty } else r

abbrev pub sub_filled : ℕ → Order → Order
sub_filled qty r = if leb qty r.filled then record r { filled = r.filled - qty } else r

-- `case((Order.filled > f, Order.filled - f), else_=0)`
abbrev pub lower_filled : ℕ → Order → Order
lower_filled f r = record r { filled = if ltb f r.filled then r.filled - f else 0 }

-- `case((target > Order.amount, Order.amount), else_=target)`
abbrev pub set_filled : ℕ → Order → Order
set_filled target r = record r { filled = if ltb r.amount target then r.amount else target }

abbrev pub set_cancelled : Order → Order
set_cancelled r = record r { cancelled = true }

abbrev pub write : Write → Order → Order
write (Write.takes qty) = add_filled qty
write (Write.gives qty) = sub_filled qty
write (Write.lowers f) = lower_filled f
write (Write.resyncs target) = set_filled target
write Write.cancels = set_cancelled

-- The database, and what other sessions commit before each of this session's next statements.
pub record World : Type 0 where
  pub db : Db
  pub others : List (List (ℕ × Write))

unfoldable pub interleave : List (ℕ × Write) → List Order → List Order
interleave [] rows = rows
interleave ((id, w) ∷ ws) rows = interleave ws (modify order_key id (write w) rows)

-- The next statement begins: what others have committed is there.
abbrev pub arrive_with : Db → List (List (ℕ × Write)) → World
arrive_with db [] = record { db = db; others = [] }
arrive_with db (ws ∷ rest) = record {
  db = record db { orders = interleave ws db.orders };
  others = rest;
}

unfoldable pub arrive : World → World
arrive w = arrive_with w.db w.others

-- `db.refresh(o, ["filled", "cancelled"])`
abbrev pub refreshed : Order → Option Order → Order
refreshed o none = o
refreshed o (some r) = record o { filled = r.filled; cancelled = r.cancelled }

unfoldable pub refresh : World → Order → Order × World
unfolding arrive
refresh w o = let w' = arrive w in (refreshed o (find order_key o.id w'.db.orders), w')

-- Whether the guarded update wrote a row.
abbrev pub wrote : Option Order → ℕ → Bool
wrote none qty = false
wrote (some r) qty = has_room qty r

abbrev update_orders : World → ℕ → (Order → Order) → World
update_orders w id f = record w { db = record w.db { orders = modify order_key id f w.db.orders } }

-- `_take`: whether `qty` was added, the object after the refresh, the world.
unfoldable pub take : World → Order → ℕ → Bool × Order × World
unfolding arrive refresh
take w o qty =
    let w' = arrive w in
    let done = wrote (find order_key o.id w'.db.orders) qty in
    let (o', w'') = refresh (update_orders w' o.id (add_filled qty)) o in (done, o', w'')

-- `_give_back`
unfoldable pub give_back : World → Order → ℕ → Order × World
unfolding arrive refresh
give_back w o qty = refresh (update_orders (arrive w) o.id (sub_filled qty)) o
