-- ===== src/Relayer/Nonce/Held/Guards.antt =====
-- What is below the floor of the in-flight nonces, and below what the cache hands out next
-- (backend/app/relayer/nonce.py).
use over_under.Prelude.{
  ℕ, ◌+◌, ◌<◌, ◌≡◌, ◌≢◌, ◌⊎◌, inl, inr, refl, Bool, true, false, ◌&&◌, Option, none, some, List, [],
  ◌∷◌, arith, All, All-map, All-both, max,
}
use over_under.Relayer.Nonce.{Cache, reserve, release, nonce_floor, Nonces, drop_nonce}

abbrev pub Distinct : List ℕ → Type 0
Distinct [] = Unit
Distinct (n ∷ ns) = All (λ m. m ≢ n) ns × Distinct ns

pub and_true : (a b : Bool) → a && b ≡ true → (a ≡ true) × (b ≡ true)
and_true true b h = (refl, h)
and_true false b h = absurd (ground (arith, h))

-- Below the floor, or nothing is held.
abbrev pub Covers : Option ℕ → ℕ → Type 0
Covers none m = ⊥
Covers (some floor) m = m < floor

Covers-mono :
    (n m : ℕ) (o : Option ℕ)
    → Covers o m
    → Covers (elim o [ none ↦ some (n + 1) | some top ↦ some (max (n + 1) top) ]) m
Covers-mono n m none h = absurd h
Covers-mono n m (some top) h = omega arith

pub nonce_floor-Covers : (held : List ℕ) → All (Covers (nonce_floor held)) held
unfolding nonce_floor
nonce_floor-Covers [] = tt
nonce_floor-Covers (n ∷ held) = (
  ground arith,
  All-map (Covers (nonce_floor held)) _ held (λ m. Covers-mono n m (nonce_floor held))
      (nonce_floor-Covers held),
)

-- A reserved nonce is above every nonce that is held.
reserve-above :
    (cache : Cache) (pending m : ℕ) (floor : Option ℕ)
    → Covers floor m
    → m < (reserve cache pending floor).0
unfolding reserve
reserve-above cache pending m none h = absurd h
reserve-above cache pending m (some floor) h = ground arith

pub reserve-fresh :
    (cache : Cache) (pending : ℕ) (held : List ℕ)
    → All (λ m. m < (reserve cache pending (nonce_floor held)).0) held
reserve-fresh cache pending held =
    All-map (Covers (nonce_floor held)) _ held
      (λ m. reserve-above cache pending m (nonce_floor held)) (nonce_floor-Covers held)

drop_nonce-All : (P : ℕ → Type 0) (n : ℕ) (held : List ℕ) → All P held → All P (drop_nonce n held)
unfolding drop_nonce
drop_nonce-All P n [] h = tt
drop_nonce-All P n (m ∷ held) h = ground (arith, drop_nonce-All P n held h.1)

pub drop_nonce-Distinct : (n : ℕ) (held : List ℕ) → Distinct held → Distinct (drop_nonce n held)
unfolding drop_nonce
drop_nonce-Distinct n [] h = tt
drop_nonce-Distinct n (m ∷ held) h =
    ground (arith, drop_nonce-All (λ k. k ≢ m) n held h.0, drop_nonce-Distinct n held h.1)

-- Below what the worker has read as its floor, or below what the cache would hand out next.
abbrev pub Guarded : Option ℕ → Cache → ℕ → Type 0
Guarded floor cache m = Covers floor m ⊎ Covers cache m

abbrev pub Ready : Option (Option ℕ) → Cache → List ℕ → Type 0
Ready none cache held = Unit
Ready (some floor) cache held = All (Guarded floor cache) held

-- No nonce is held twice, and a reservation above the floor that the worker has read is fresh.
abbrev pub Sound : Nonces → Type 0
Sound st = Distinct st.held × Ready st.floor st.cache st.held

abbrev pub is_looking : Option (Option ℕ) → Bool
is_looking none = false
is_looking (some floor) = true

pub reserve-Guarded :
    (cache : Cache) (pending m : ℕ) (floor : Option ℕ)
    → Guarded floor cache m
    → m < (reserve cache pending floor).0
unfolding reserve
reserve-Guarded cache pending m floor (inl h) = reserve-above cache pending m floor h
reserve-Guarded none pending m floor (inr h) = absurd h
reserve-Guarded (some next) pending m none (inr h) = h
reserve-Guarded (some next) pending m (some floor) (inr h) = ground arith

reserve-next :
    (cache : Cache) (pending : ℕ) (floor : Option ℕ)
    → (reserve cache pending floor).1 ≡ some ((reserve cache pending floor).0 + 1)
unfolding reserve
reserve-next cache pending floor = refl

-- The nonces below a reserved one stay below the next.
pub reserved-Covers :
    (cache : Cache) (pending : ℕ) (floor : Option ℕ) (held : List ℕ)
    → All (λ m. m < (reserve cache pending floor).0) held
    → All (Covers (reserve cache pending floor).1) ((reserve cache pending floor).0 ∷ held)
unfolding reserve
reserved-Covers cache pending floor held h =
    (omega arith, All-map _ (Covers (reserve cache pending floor).1) held (λ m lt. omega arith) h)

pub below-Distinct :
    (n : ℕ) (held : List ℕ) → All (λ m. m < n) held → Distinct held → Distinct (n ∷ held)
below-Distinct n held h d = (All-map (λ m. m < n) _ held (λ m lt e. omega arith) h, d)

pub pays-Ready :
    (seen : Option (Option ℕ)) (cache : Cache) (held : List ℕ)
    → All (Covers cache) held
    → Ready seen cache held
pays-Ready none cache held h = tt
pays-Ready (some floor) cache held h =
    All-map (Covers cache) (Guarded floor cache) held (λ m c. inr c) h

release-Covers : (cache : Cache) (n m : ℕ) → m ≢ n → Covers cache m → Covers (release cache n) m
unfolding release
release-Covers none n m ne h = absurd h
release-Covers (some next) n m ne h = ground (arith, ne, h)

drop_nonce-ne : (n : ℕ) (held : List ℕ) → All (λ m. m ≢ n) (drop_nonce n held)
unfolding drop_nonce
drop_nonce-ne n [] = tt
drop_nonce-ne n (m ∷ held) = ground (arith, drop_nonce-ne n held)

pub hands_back-Ready :
    (seen : Option (Option ℕ)) (cache : Cache) (n : ℕ) (held : List ℕ)
    → Ready seen cache held
    → Ready seen (release cache n) (drop_nonce n held)
hands_back-Ready none cache n held h = tt
hands_back-Ready (some floor) cache n held h =
    All-both (Guarded floor cache) (λ m. m ≢ n) (Guarded floor (release cache n))
      (drop_nonce n held)
      (λ m g ne. elim g [ inl f ↦ inl f | inr c ↦ inr (release-Covers cache n m ne c) ])
      (drop_nonce-All (Guarded floor cache) n held h) (drop_nonce-ne n held)

pub settles-Ready :
    (seen : Option (Option ℕ)) (cache : Cache) (n : ℕ) (held : List ℕ)
    → Ready seen cache held
    → Ready seen cache (drop_nonce n held)
settles-Ready none cache n held h = tt
settles-Ready (some floor) cache n held h = drop_nonce-All (Guarded floor cache) n held h
