-- ===== src/Listings/Sound/Runs.antt =====
-- Any sequence of the calls that write listings: the prepare and confirm routes of
-- backend/app/markets/listing.py and the indexer's part.
use over_under.Prelude.{ℕ, Option, List, [], ◌∷◌}
use over_under.Text.{Text, Unicode}
use over_under.Db.{Db}
use over_under.Listings.Confirm.{ChainRead, listing_confirm}
use over_under.Listings.Prepare.{Hashes, PrepareIn, Factory, listing_prepare}
use over_under.Listings.Indexed.{Created, index_user_listing}
use over_under.Listings.Sound.{ListingsSound}
use over_under.Listings.Sound.Confirming.{confirm-Sound}
use over_under.Listings.Sound.Preparing.{prepare-Sound}
use over_under.Listings.Sound.Indexing.{index-Sound}

-- A call with what it reads: the body, the chain's answers, the account, the salt and the time.
pub data ListingCall : Type 0 where
  prepare : PrepareIn → Factory → ℕ → ℕ → ℕ → ListingCall
  confirm : ChainRead → ℕ → ℕ → Text → ℕ → ListingCall
  index : ℕ → Created → Option (ℕ × ℕ) → ℕ → ListingCall

module _ (u : Unicode) (hashes : Hashes) where
  unfoldable pub call : Db → ListingCall → Db
  unfolding listing_prepare listing_confirm index_user_listing
  call db (ListingCall.prepare body factory creator salt now) =
      (listing_prepare u hashes db body factory creator salt now).0
  call db (ListingCall.confirm read cid account body now) =
      (listing_confirm u hashes.keccak db read cid account body now).0
  call db (ListingCall.index cid args commitments now) =
      index_user_listing u hashes.keccak db cid args commitments now

  unfoldable pub calls : Db → List ListingCall → Db
  unfolding call
  calls db [] = db
  calls db (c ∷ cs) = calls (call db c) cs

  call-Sound :
      (db : Db) (c : ListingCall)
      → ListingsSound u hashes.keccak db.listings
      → ListingsSound u hashes.keccak (call db c).listings
  unfolding call
  call-Sound db (ListingCall.prepare body factory creator salt now) inv =
      prepare-Sound u hashes.keccak hashes db body factory creator salt now inv
  call-Sound db (ListingCall.confirm read cid account body now) inv =
      confirm-Sound u hashes.keccak db read cid account body now inv
  call-Sound db (ListingCall.index cid args commitments now) inv =
      index-Sound u hashes.keccak db cid args commitments now inv

  -- Whatever prepare, confirm and index calls are made in whatever order: when every condition id
  -- has one listing, every criteria text is trimmed, and every confirmed listing has the criteria
  -- text that its hash commits to, which passes its gate, and a trimmed question that passes the
  -- question gate, then so it is afterwards.
  pub calls-Sound :
      (db : Db) (cs : List ListingCall)
      → ListingsSound u hashes.keccak db.listings
      → ListingsSound u hashes.keccak (calls db cs).listings
  unfolding calls
  calls-Sound db [] inv = inv
  calls-Sound db (c ∷ cs) inv = calls-Sound (call db c) cs (call-Sound db c inv)
