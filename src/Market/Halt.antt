-- ===== src/Market/Halt.antt =====
-- Theorems on the trading halt (backend/app/markets/trading.py).
use over_under.Prelude.{ℕ, ◌≤◌, ◌≡◌, ◌↔◌, ◌≢◌, ◌⊎◌, true, false, Option, none, some, arith}
use over_under.Settings.{Settings}
use over_under.Market.{
  Market, Listing, HaltReason, market_type_user, trading_open, unconfirmed, halt_of,
}

-- The two gates agree: a market without a halt reason is open, and an open market that is no
-- unconfirmed user listing has none.
pub halt_of-iff-open :
    (m : Market) (l : Option Listing) (s : Settings) (now : ℕ)
    → (m.market_type ≢ market_type_user) ⊎ (unconfirmed l ≡ false)
    → (halt_of m l s now ≡ none) ↔ (trading_open m s now ≡ true)
unfolding halt_of trading_open
halt_of-iff-open m l s now listed = (λ h. ground arith, λ h. ground arith)

-- The halt does not lift by itself: a market, as its row stands, that has no reason to halt at a
-- later time has none now.
pub halt_of_mono :
    (m : Market) (l : Option Listing) (s : Settings) (now later : ℕ)
    → now ≤ later
    → halt_of m l s later ≡ none
    → halt_of m l s now ≡ none
unfolding halt_of
halt_of_mono m l s now later le h = ground arith

-- The reason is `closed` exactly when a listed market, not resolved, has reached its closing time
-- with the halt switched on.
pub closed_iff :
    (m : Market) (l : Option Listing) (s : Settings) (now : ℕ)
    → (m.market_type ≢ market_type_user) ⊎ (unconfirmed l ≡ false)
    → (halt_of m l s now ≡ some HaltReason.closed) ↔ (
        (m.resolved ≡ false)
        × (s.trading_halt_at_close ≡ true)
        × (m.close_time ≢ 0)
        × (m.close_time ≤ now))
unfolding halt_of
closed_iff m l s now listed = (λ h. ground arith, λ h. ground arith)
