-- ===== src/Market.antt =====
-- Markets and listings as rows, and the API's trading halt (backend/app/markets/trading.py).
-- Condition ids are the numbers that the hex texts spell, so `norm_cid` is the identity.
pub mod Halt
use over_under.Prelude.{
  ℕ, Bool, true, false, ◌||◌, not, Option, none, some, List, ltb, leb, ◌==◌, if◌then◌else◌,
}
use over_under.Prelude.Table.{find}
use over_under.Text.{Text}
use over_under.Settings.{Settings}

-- The columns of `Market` that the modelled code reads or writes; an empty parent is `none`.
pub record Market : Type 0 where
  pub condition_id : ℕ
  pub parent_condition_id : Option ℕ
  pub question : Text
  pub resolution_criteria : Text
  pub market_type : ℕ
  pub close_time : ℕ
  pub paused : Bool
  pub resolved : Bool

pub data ListingStatus : Type 0 where
  prepared indexed confirmed rejected : ListingStatus

-- Why a listing or its question is refused (backend/app/markets/listing_gates.py).
pub data Gate : Type 0 where
  question_short question_long not_a_question subjective : Gate
  criteria_short criteria_long : Gate
  close_early close_late seed_low seed_high : Gate
  too_many_pending padded similar : Gate
  question_differs close_time_differs seed_differs : Gate

-- `MarketListing`: the salt is missing where the backend did not prepare the row.
pub record Listing : Type 0 where
  pub condition_id : ℕ
  pub creator : ℕ
  pub salt : Option ℕ
  pub question : Text
  pub resolution_criteria : Text
  pub criteria_hash : Option ℕ
  pub close_time : ℕ
  pub seed_usdc : ℕ
  pub status : ListingStatus
  pub reject_reason : Option Gate
  pub created_at : ℕ

abbrev pub market_key : Market → ℕ
market_key m = m.condition_id

abbrev pub listing_key : Listing → ℕ
listing_key l = l.condition_id

pub data HaltReason : Type 0 where
  closed resolved unlisted paused : HaltReason

abbrev pub market_type_user : ℕ
market_type_user = 2

unfoldable pub halts_at : Market → Settings → Option ℕ
halts_at m s = if not s.trading_halt_at_close || m.close_time == 0 then none else some m.close_time

-- `int(now) >= at`, for a market that halts at all.
abbrev pub reached : Option ℕ → ℕ → Bool
reached none now = false
reached (some at) now = leb at now

unfoldable pub trading_open : Market → Settings → ℕ → Bool
unfolding halts_at
trading_open m s now =
    if m.resolved || m.paused
    then false
    else elim (halts_at m s) [ none ↦ true | some at ↦ ltb now at ]

-- `listing is None or listing.status != "confirmed"`
abbrev pub unconfirmed : Option Listing → Bool
unconfirmed none = true
unconfirmed (some l) = elim l.status [ ListingStatus.confirmed ↦ false | _ ↦ true ]

-- The tests of `trading_halt_reason` on the market's row and its listing's.
unfoldable pub halt_of : Market → Option Listing → Settings → ℕ → Option HaltReason
unfolding halts_at
halt_of m listing s now =
    if m.resolved
    then some HaltReason.resolved
    else if m.market_type == market_type_user
    then (if unconfirmed listing then some HaltReason.unlisted else late)
    else late
  where
    late : Option HaltReason
    late =
        if reached (halts_at m s) now
        then some HaltReason.closed
        else if m.paused
        then some HaltReason.paused
        else none

-- `none` when trading is allowed; a market with no row passes.
unfoldable pub trading_halt_reason :
    List Market → List Listing → ℕ → Settings → ℕ → Option HaltReason
unfolding halt_of
trading_halt_reason markets listings cid s now = elim (find market_key cid markets) [
  | none ↦ none
  | some m ↦ halt_of m (find listing_key m.condition_id listings) s now
]
