-- ===== src/Relayer/Nonce.antt =====
-- Nonce allocation for the relayer's account (backend/app/relayer/nonce.py, and `_nonce_floor` of the
-- worker and of the emissions route). Callers hold the lock across reserve, sign and broadcast, so the
-- operations do not interleave; the worker reads its floor before it takes the lock, the route behind
-- it. The cache is `_next`; a node's pending count is an argument.
pub mod Held
use over_under.Prelude.{
  ℕ, ◌+◌, max, Bool, true, false, ◌&&◌, Option, none, some, List, [], ◌∷◌, ltb, ◌==◌, suc,
  if◌then◌else◌,
}

abbrev pub Cache : Type 0
Cache = Option ℕ

-- `self._next`, read from the node first if it is not there.
abbrev pub cached_or : Cache → ℕ → ℕ
cached_or none pending = pending
cached_or (some n) pending = n

-- `if floor is not None and floor > self._next: self._next = floor`
abbrev pub raise_to : Option ℕ → ℕ → ℕ
raise_to none n = n
raise_to (some floor) n = if ltb n floor then floor else n

unfoldable pub reserve : Cache → ℕ → Option ℕ → ℕ × Cache
reserve cache pending floor = let n = raise_to floor (cached_or cache pending) in (n, some (n + 1))

unfoldable pub resync : ℕ → Cache
resync pending = some pending

-- Hands `n` back when a node has rejected a transaction signed with it.
unfoldable pub release : Cache → ℕ → Cache
release none n = none
release (some next) n = if next == n + 1 then some n else some next

unfoldable pub invalidate : Cache → Cache
invalidate cache = none

-- `_nonce_floor`: one past the highest nonce that an in-flight job or distribution holds.
unfoldable pub nonce_floor : List ℕ → Option ℕ
nonce_floor [] = none
nonce_floor (n ∷ held) = elim (nonce_floor held) [
  | none ↦ some (n + 1)
  | some top ↦ some (max (n + 1) top)
]

-- What happens to the cache and to the nonces that in-flight transactions hold. The worker's `_send`
-- looks up its floor, and later, under the lock, it reserves above what it has seen or leaves a job that
-- another has claimed; the emissions route looks up and reserves under the lock. A rejected send hands its nonce back, either sender
-- resyncs, the worker invalidates, a transaction is mined or dropped.
pub data Event : Type 0 where
  looks leaves : Event
  sends pays resyncs : ℕ → Event
  hands_back settles : ℕ → Event
  invalidates : Event

-- `floor` is what the worker has read and not used yet; one worker sends at a time.
pub record Nonces : Type 0 where
  pub cache : Cache
  pub held : List ℕ
  pub floor : Option (Option ℕ)

pub drop_nonce : ℕ → List ℕ → List ℕ
drop_nonce n [] = []
drop_nonce n (m ∷ held) = if m == n then drop_nonce n held else m ∷ drop_nonce n held

abbrev pub reserved_above : Nonces → ℕ → Option ℕ → Option (Option ℕ) → Nonces
reserved_above st pending floor left =
    let (n, cache) = reserve st.cache pending floor in
    record { cache = cache; held = n ∷ st.held; floor = left }

abbrev pub send_above : Nonces → ℕ → Option (Option ℕ) → Nonces
send_above st pending none = st
send_above st pending (some floor) = reserved_above st pending floor none

pub step : Nonces → Event → Nonces
unfolding reserve resync release invalidate nonce_floor drop_nonce
step st looks = record st { floor = some (nonce_floor st.held) }
step st leaves = record st { floor = none }
step st (sends pending) = send_above st pending st.floor
step st (pays pending) = reserved_above st pending (nonce_floor st.held) st.floor
step st (resyncs pending) = record st { cache = resync pending }
step st (hands_back n) = record st { cache = release st.cache n; held = drop_nonce n st.held }
step st (settles n) = record st { held = drop_nonce n st.held }
step st invalidates = record st { cache = invalidate st.cache }

unfoldable pub run : Nonces → List Event → Nonces
unfolding step
run st [] = st
run st (e ∷ es) = run (step st e) es

-- Whether the cache keeps what it has handed out; `looking` says that the worker has read its floor.
abbrev pub keeps_cache : Bool → Event → Bool
keeps_cache true (resyncs pending) = false
keeps_cache true invalidates = false
keeps_cache _ _ = true

abbrev pub still_looking : Bool → Event → Bool
still_looking looking looks = true
still_looking looking leaves = false
still_looking looking (sends pending) = false
still_looking looking _ = looking

-- Nobody resyncs or drops the cache while the worker is between its floor and its reservation.
abbrev pub undisturbed : Bool → List Event → Bool
undisturbed looking [] = true
undisturbed looking (e ∷ es) = keeps_cache looking e && undisturbed (still_looking looking e) es
