-- ===== src/Tests/Trading.antt =====
-- The order book's theorems, and the halt's, at the concrete book.
use over_under.Prelude.{
  ◌+◌, ◌≤◌, ◌≡◌, ◌↔◌, ◌⊎◌, ◌≢◌, inl, inr, refl, true, false, none, some, All, arith, keep, sum_by,
  ◌&&◌,
}
use over_under.Prelude.Table.{find}
use over_under.Settings.{default_settings, relayer_ready}
use over_under.Market.{HaltReason, trading_open, halt_of, trading_halt_reason}
use over_under.Market.Halt.{halt_of-iff-open, halt_of_mono, closed_iff}
use over_under.Db.{order_key}
use over_under.Orderbook.Rows.{remaining, crosses, interleave, arrive, refresh, take, give_back}
use over_under.Orderbook.Match.{
  volume_of, makers_of, insert, sort, resting, can_make, attempt, enqueue_match, record_fill,
  after_try, match_makers, try_match,
}
use over_under.Orderbook.Match.Bounds.{AllWithin, try_match-Within}
use over_under.Orderbook.Match.Fills.{FillOf, NoWorse, try_match-FillOf, try_match-limit}
use over_under.Orderbook.Match.Priority.{InPriority, makers_of_lem}
use mathlib.Core.List.{Perm}
use over_under.Orderbook.Match.Complete.{amount_of}
use over_under.Orderbook.Match.Uncrossed.{try_match_adds_up, try_match_uncrossed}
use over_under.Tests.Data.{deployment, market, listing, bid, ask, book, quiet_world, busy_world}

halt_of-iff-open_example :
    (halt_of market none default_settings 1000 ≡ none)
    ↔ (trading_open market default_settings 1000 ≡ true)
halt_of-iff-open_example = halt_of-iff-open market none default_settings 1000 (inl (ground arith))

open_now : halt_of market none default_settings 1999 ≡ none
unfolding halt_of
open_now = refl

halt_of_mono_example : halt_of market none default_settings 1000 ≡ none
halt_of_mono_example = halt_of_mono market none default_settings 1000 1999 (omega arith) open_now

closed_iff_example :
    (halt_of market (some listing) default_settings 2000 ≡ some HaltReason.closed)
    ↔ ((false ≡ false) × (true ≡ true) × (market.close_time ≢ 0) × (2000 ≤ 2000))
closed_iff_example = closed_iff market (some listing) default_settings 2000 (inr refl)

within : AllWithin busy_world
within = ground arith

try_match-Within_example : AllWithin (try_match deployment 100 busy_world bid).world
try_match-Within_example = try_match-Within deployment 100 busy_world bid within

try_match-FillOf_example :
    All
      (FillOf default_settings 160 book.orders bid)
      (try_match deployment 100 busy_world bid).fills
try_match-FillOf_example = try_match-FillOf deployment 100 busy_world bid

try_match-limit_example :
    All
      (λ f. NoWorse true f.volume (volume_of f.fill_amount 600_000))
      (try_match deployment 100 busy_world bid).fills
try_match-limit_example = try_match-limit deployment 100 busy_world bid

makers_of_lem_example :
    InPriority true (makers_of bid 160 book.orders)
    × Perm
        (makers_of bid 160 book.orders)
        (keep (can_make bid 160) (keep (resting bid 160) book.orders))
makers_of_lem_example = makers_of_lem bid 160 book.orders

open_market :
    trading_halt_reason book.markets book.listings bid.condition_id default_settings 100 ≡ none
unfolding trading_halt_reason
open_market = refl

try_match_adds_up_example :
    let m = try_match deployment 100 quiet_world bid in
    (m.incoming.filled ≡ 0 + sum_by amount_of m.fills)
    × (m.incoming.filled ≤ 10)
    × (find order_key 1 m.world.db.orders ≡ some m.incoming)
try_match_adds_up_example =
    try_match_adds_up deployment 100 quiet_world bid refl (refl, (refl, tt)) refl refl (omega arith)
      open_market

-- The ask is sold out.
ask_after :
    find order_key 2 (try_match deployment 100 quiet_world bid).world.db.orders
    ≡ some (record ask { filled = 5 })
unfolding try_match trading_halt_reason relayer_ready makers_of sort insert crosses match_makers
    after_try attempt record_fill enqueue_match take give_back refresh arrive interleave
ask_after = refl

try_match_uncrossed_example :
    (remaining (try_match deployment 100 quiet_world bid).incoming ≡ 0)
    ⊎ ((resting bid 160 (record ask { filled = 5 }) && can_make bid 160 (record ask { filled = 5 }))
        ≡ false)
try_match_uncrossed_example =
    try_match_uncrossed deployment 100 quiet_world bid refl (refl, (refl, tt)) refl refl
      (omega arith) open_market 2 (record ask { filled = 5 }) ask_after
