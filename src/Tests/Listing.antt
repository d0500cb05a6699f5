-- ===== src/Tests/Listing.antt =====
-- A listing that is prepared, on_chain and confirmed.
use over_under.Prelude.{
  ℕ, ◌+◌, ◌*◌, ◌≡◌, refl, inl, true, false, ◌&&◌, ◌||◌, none, some, List, [], ◌∷◌, leb, ◌==◌,
  if◌then◌else◌, map,
}
use over_under.Text.{Text, Unicode, codes, is_plain, strip}
use over_under.Market.{Gate}
use over_under.Db.{Db}
use over_under.Listings.Gates.{is_duplicate}
use over_under.Listings.Review.{open_questions}
use over_under.Listings.Confirm.{ChainRead, Confirmed, OnChain, listing_confirm}
use over_under.Listings.Prepare.{
  Hashes, PrepareIn, Factory, ListingConfig, Prepared, Calls, listing_prepare,
}
use over_under.Listings.Duplicates.{is_duplicate_sym, is_duplicate_reworded}
use over_under.Listings.Sound.{ListingsSound}
use over_under.Listings.Sound.Runs.{ListingCall, calls, calls-Sound}
use over_under.Listings.Publishing.{Public, confirm_publishes, confirm_fails, Outcome}
use over_under.Listings.Roundtrip.{confirm_prepared, created_market}
use over_under.Listings.Prepare.Passed.{Writes, prepare-Writes}

abbrev lower_code : ℕ → ℕ
lower_code c = if leb b'A' c && leb c b'Z' then c + 32 else c

abbrev pub ascii : Unicode
ascii = record {
  lower = map lower_code;
  is_space = λ c. c == b' ';
  is_digit = λ c. leb b'0' c && leb c b'9';
  is_word = λ c. is_plain (lower_code c) || c == b'_';
}

abbrev add_up : List ℕ → ℕ
add_up [] = 7
add_up (c ∷ t) = c + 31 * add_up t

abbrev hashes : Hashes
hashes = record { keccak = add_up; keccak_words = add_up }

abbrev pub empty_db : Db
empty_db = record {
  markets = [];
  listings = [];
  orders = [];
  trades = [];
  jobs = [];
  next_trade = 1;
  next_job = 1;
}

abbrev config : ListingConfig
config = record {
  permissionless = true;
  oracle = 5;
  listing_fee_usdc = 1_000_000;
  bounds = record { min_seed_usdc = 100; min_lead_seconds = 60; max_horizon_seconds = 10_000 };
  cooldown_seconds = 100;
}

abbrev factory : Factory
factory = record {
  config = some (some config);
  lister_allowed = none;
  last_listed_at = some 0;
  user_condition_id = λ creator salt. some (add_up (5 ∷ add_up (creator ∷ salt ∷ []) ∷ []));
}

abbrev body : PrepareIn
body = record {
  question = codes " Will Rome win? ";
  resolution_criteria = codes "Yes if Rome wins the cup.";
  close_time = 5_000;
  seed_usdc = 200;
}

abbrev other : Text
other = codes "Rome: win, or Will ROME win?"

abbrev handed : Calls
handed = record {
  condition_id = add_up (5 ∷ add_up (12 ∷ 3 ∷ []) ∷ []);
  question_id = add_up (12 ∷ 3 ∷ []);
  criteria_hash = add_up (codes "Yes if Rome wins the cup.");
  approve_amount = 1_000_200;
}

prepared_now :
    (listing_prepare ascii hashes empty_db body factory 12 3 1_000).1 ≡ Prepared.handed_out handed
unfolding listing_prepare
prepared_now = refl

abbrev prepared_db : Db
prepared_db = (listing_prepare ascii hashes empty_db body factory 12 3 1_000).0

abbrev on_chain : OnChain
on_chain = created_market ascii hashes body handed 12 false

alone :
    is_duplicate ascii
      (strip ascii body.question)
      (open_questions prepared_db.markets prepared_db.listings 2_000 (some handed.condition_id))
    ≡ false
unfolding listing_prepare is_duplicate open_questions
alone = refl

confirm_prepared_example :
    (listing_confirm ascii add_up prepared_db
      (ChainRead.reported on_chain)
      handed.condition_id
      12
      []
      2_000).1
    ≡ Confirmed.public
confirm_prepared_example =
    confirm_prepared ascii hashes empty_db prepared_db body factory 12 3 1_000 2_000 handed false []
      prepared_now refl alone

prepare-Writes_example :
    Writes ascii hashes empty_db body 12 3 1_000 factory
      (listing_prepare ascii hashes empty_db body factory 12 3 1_000)
prepare-Writes_example = prepare-Writes ascii hashes empty_db body 12 3 1_000 factory

confirmed_now :
    (listing_confirm ascii add_up prepared_db
      (ChainRead.reported on_chain)
      handed.condition_id
      12
      []
      2_000).1
    ≡ Confirmed.public
unfolding listing_prepare listing_confirm
confirmed_now = refl

confirm_publishes_example :
    Public ascii add_up prepared_db
      (listing_confirm ascii add_up prepared_db
        (ChainRead.reported on_chain)
        handed.condition_id
        12
        []
        2_000).0
      (ChainRead.reported on_chain)
      handed.condition_id
      2_000
confirm_publishes_example =
    confirm_publishes ascii add_up prepared_db (ChainRead.reported on_chain) handed.condition_id 12
      [] 2_000 confirmed_now

-- The question on the chain is not the prepared one.
abbrev edited : OnChain
edited = record on_chain { question = other }

rejected_now :
    (listing_confirm ascii add_up prepared_db
      (ChainRead.reported edited)
      handed.condition_id
      12
      []
      2_000).1
    ≡ Confirmed.listing_rejected Gate.question_differs
unfolding listing_prepare listing_confirm
rejected_now = refl

confirm_fails_example :
    Outcome ascii add_up prepared_db (ChainRead.reported edited) handed.condition_id 2_000 (
      listing_confirm ascii add_up prepared_db
        (ChainRead.reported edited)
        handed.condition_id
        12
        []
        2_000)
confirm_fails_example =
    confirm_fails ascii add_up prepared_db (ChainRead.reported edited) handed.condition_id 12 []
      2_000

abbrev history : List ListingCall
history =
    ListingCall.prepare body factory 12 3 1_000
    ∷ ListingCall.index handed.condition_id
        (record { creator = 12; question = codes "Will Rome win?"; close_time = 5_000 })
        (some (handed.criteria_hash, 200)) 1_500
    ∷ ListingCall.confirm (ChainRead.reported on_chain) handed.condition_id 12 [] 2_000
    ∷ []

calls-Sound_example : ListingsSound ascii add_up (calls ascii hashes empty_db history).listings
calls-Sound_example = calls-Sound ascii hashes empty_db history (tt, tt)

is_duplicate_sym_example :
    is_duplicate ascii (codes "Will Rome win?") (other ∷ [])
    ≡ is_duplicate ascii other (codes "Will Rome win?" ∷ [])
is_duplicate_sym_example = is_duplicate_sym ascii (codes "Will Rome win?") other

is_duplicate_reworded_example : is_duplicate ascii other (codes "Who won?" ∷ other ∷ []) ≡ true
is_duplicate_reworded_example =
    is_duplicate_reworded ascii other other (codes "Who won?" ∷ other ∷ []) refl (inl refl)

reordered_now : is_duplicate ascii other (codes "Will Rome win?" ∷ []) ≡ true
unfolding is_duplicate
reordered_now = refl
