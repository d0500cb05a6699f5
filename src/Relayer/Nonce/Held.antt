-- ===== src/Relayer/Nonce/Held.antt =====
-- Theorems on the nonces that in-flight transactions hold (backend/app/relayer/nonce.py, and the
-- worker's `_nonce_floor`).
pub mod Guards
use over_under.Prelude.{
  ℕ, ◌≡◌, inl, refl, sym, ap, ◌∙◌, Bool, true, false, Option, none, some, List, [], ◌∷◌, arith,
  All-map,
}
use over_under.Relayer.Nonce.{
  Cache, reserve, release, resync, invalidate, nonce_floor, Event, looks, leaves, sends, pays,
  resyncs, hands_back, settles, invalidates, Nonces, send_above, step, run, keeps_cache,
  still_looking, undisturbed,
}
use over_under.Relayer.Nonce.Held.Guards.{
  Distinct, and_true, Covers, nonce_floor-Covers, reserve-fresh, drop_nonce-Distinct, Guarded,
  Ready, Sound, is_looking, reserve-Guarded, reserved-Covers, below-Distinct, pays-Ready,
  hands_back-Ready, settles-Ready,
}

unseen-Ready :
    (seen : Option (Option ℕ)) (cache : Cache) (held : List ℕ)
    → is_looking seen ≡ false
    → Ready seen cache held
unseen-Ready none cache held e = tt
unseen-Ready (some floor) cache held e = absurd (ground (arith, e))

send_above-Sound :
    (st : Nonces) (pending : ℕ) (seen : Option (Option ℕ))
    → Sound st
    → Ready seen st.cache st.held
    → Sound (send_above st pending seen)
send_above-Sound st pending none h r = h
send_above-Sound st pending (some floor) h r = (
  below-Distinct (reserve st.cache pending floor).0 st.held
      (All-map (Guarded floor st.cache) _ st.held (λ m. reserve-Guarded st.cache pending m floor) r)
      h.0,
  tt,
)

step-Sound :
    (st : Nonces) (e : Event)
    → keeps_cache (is_looking st.floor) e ≡ true
    → Sound st
    → Sound (step st e)
unfolding step resync invalidate
step-Sound st looks k h = (
  h.0,
  All-map (Covers (nonce_floor st.held)) (Guarded (nonce_floor st.held) st.cache) st.held
      (λ m c. inl c) (nonce_floor-Covers st.held),
)
step-Sound st leaves k h = (h.0, tt)
step-Sound st (sends pending) k h = send_above-Sound st pending st.floor h h.1
step-Sound st (pays pending) k h =
    let fresh = reserve-fresh st.cache pending st.held in
    (
      below-Distinct (reserve st.cache pending (nonce_floor st.held)).0 st.held fresh h.0,
      pays-Ready st.floor (reserve st.cache pending (nonce_floor st.held)).1 _
          (reserved-Covers st.cache pending (nonce_floor st.held) st.held fresh),
    )
step-Sound st (resyncs pending) k h =
    (h.0, unseen-Ready st.floor (some pending) st.held (unlooking _ k))
  where
    unlooking : (b : Bool) → keeps_cache b (resyncs pending) ≡ true → b ≡ false
    unlooking false k = refl
    unlooking true k = absurd (ground (arith, k))
step-Sound st (hands_back n) k h =
    (drop_nonce-Distinct n st.held h.0, hands_back-Ready st.floor st.cache n st.held h.1)
step-Sound st (settles n) k h =
    (drop_nonce-Distinct n st.held h.0, settles-Ready st.floor st.cache n st.held h.1)
step-Sound st invalidates k h = (h.0, unseen-Ready st.floor none st.held (unlooking _ k))
  where
    unlooking : (b : Bool) → keeps_cache b invalidates ≡ true → b ≡ false
    unlooking false k = refl
    unlooking true k = absurd (ground (arith, k))

send_above_looking :
    (st : Nonces) (pending : ℕ) (seen : Option (Option ℕ))
    → seen ≡ st.floor
    → is_looking (send_above st pending seen).floor ≡ false
send_above_looking st pending none e = ap is_looking (sym e)
send_above_looking st pending (some floor) e = refl

step_looking :
    (st : Nonces) (e : Event) → is_looking (step st e).floor ≡ still_looking (is_looking st.floor) e
unfolding step
step_looking st looks = refl
step_looking st leaves = refl
step_looking st (sends pending) = send_above_looking st pending st.floor refl
step_looking st (pays pending) = refl
step_looking st (resyncs pending) = refl
step_looking st (hands_back n) = refl
step_looking st (settles n) = refl
step_looking st invalidates = refl

run-Sound :
    (st : Nonces) (es : List Event)
    → undisturbed (is_looking st.floor) es ≡ true
    → Sound st
    → Sound (run st es)
unfolding run
run-Sound st [] u h = h
run-Sound st (e ∷ es) u h =
    let (kept, later) = and_true (keeps_cache (is_looking st.floor) e) _ u in
    run-Sound (step st e) es (ap (λ b. undisturbed b es) (step_looking st e) ∙ later)
      (step-Sound st e kept h)

-- However the worker's look-ups of its floor, its sends, jobs that it leaves, payments of the emissions route, resyncs with
-- any answer of the node, nonces handed back, settled transactions and dropped caches follow on one
-- another, no two transactions in flight hold the same nonce, if none did at the start, where no send
-- was under way, and if nobody resyncs or drops the cache between the worker's look-up and the
-- reservation that uses it.
pub run-Distinct :
    (st : Nonces) (es : List Event)
    → Distinct st.held
    → st.floor ≡ none
    → undisturbed false es ≡ true
    → Distinct (run st es).held
run-Distinct st es h idle u =
    let unseen : is_looking st.floor ≡ false = ap is_looking idle in
    (run-Sound st es (ap (λ b. undisturbed b es) unseen ∙ u)
      (h, unseen-Ready st.floor st.cache st.held unseen)).0

-- A nonce that is handed back at once is reserved again under the same floor, whatever the node now answers.
pub reserve-release :
    (cache : Cache) (pending later : ℕ) (floor : Option ℕ)
    → let (n, after) = reserve cache pending floor in (reserve (release after n) later floor).0 ≡ n
unfolding reserve release
reserve-release cache pending later none = ground arith
reserve-release cache pending later (some floor) = ground arith
