-- ===== src/Indexer/Gapless.antt =====
-- No event of the AMM behind the checkpoint is without its price point
-- (backend/app/indexer/listener.py).
use over_under.Prelude.{
  ℕ, ◌-◌, ◌≤◌, ◌≡◌, refl, subst, Bool, true, false, ◌&&◌, ◌⊎◌, inl, inr, Option, none, some, List,
  [], ◌∷◌, ◌++◌, arith, leb, keep, All, All-map, All-append, Bool-cases,
}
use over_under.Text.{Text, Unicode}
use over_under.Indexer.Price.{Cdf, PricePoint}
use over_under.Indexer.Plan.{IndexerSettings}
use over_under.Indexer.Checkpoint.{Store}
use over_under.Indexer.Events.{ChainLog, FactoryEvent, insert_log, sort_logs, not_after}
use over_under.Indexer.Amm.{AmmEvent, Node, index_logs, index_amm, index_window}
use over_under.Indexer.Captured.{HasPoint, Grows, index_logs_lem}

insert_log-All :
    (P : ChainLog AmmEvent → Type 0) (a : ChainLog AmmEvent) (logs : List (ChainLog AmmEvent))
    → All P (insert_log a logs)
    → P a × All P logs
insert_log-All P a [] h = h
insert_log-All P a (b ∷ logs) h = elim (Bool-cases (not_after a b)) [
  | inl e ↦ ground (arith, e, h)
  | inr e ↦ ground (arith, e, h, insert_log-All P a logs)
]

sort_logs-All :
    (P : ChainLog AmmEvent → Type 0) (logs : List (ChainLog AmmEvent))
    → All P (sort_logs logs)
    → All P logs
sort_logs-All P [] h = tt
sort_logs-All P (a ∷ logs) h =
    let i = insert_log-All P a (sort_logs logs) h in (i.0, sort_logs-All P logs i.1)

All-split :
    (P : ChainLog AmmEvent → Type 0) (xs ys : List (ChainLog AmmEvent))
    → All P (xs ++ ys)
    → All P xs × All P ys
All-split P [] ys h = (tt, h)
All-split P (x ∷ xs) ys h = let r = All-split P xs ys h.1 in ((h.0, r.0), r.1)

-- What a window's logs are: the chain's that stand in its blocks.
abbrev pub in_blocks : ℕ → ℕ → ChainLog AmmEvent → Bool
in_blocks lo hi l = leb lo l.block_number && leb l.block_number hi

-- A call that is answered gives these logs.
abbrev pub Answers : Option (List (ChainLog AmmEvent)) → List (ChainLog AmmEvent) → Type 0
Answers none logs = Unit
Answers (some answer) logs = answer ≡ logs

-- An event in the blocks has its point.
abbrev pub Due : ℕ → ℕ → List PricePoint → ChainLog AmmEvent → Type 0
Due lo hi points l = (in_blocks lo hi l ≡ false) ⊎ HasPoint points l

keep_hit :
    (lo hi : ℕ) (l : ChainLog AmmEvent) (logs : List (ChainLog AmmEvent))
    → in_blocks lo hi l ≡ true
    → keep (in_blocks lo hi) (l ∷ logs) ≡ l ∷ keep (in_blocks lo hi) logs
keep_hit lo hi l logs e = rw e refl

keep_miss :
    (lo hi : ℕ) (l : ChainLog AmmEvent) (logs : List (ChainLog AmmEvent))
    → in_blocks lo hi l ≡ false
    → keep (in_blocks lo hi) (l ∷ logs) ≡ keep (in_blocks lo hi) logs
keep_miss lo hi l logs e = rw e refl

keep-Due :
    (lo hi : ℕ) (points : List PricePoint) (logs : List (ChainLog AmmEvent))
    → All (HasPoint points) (keep (in_blocks lo hi) logs)
    → All (Due lo hi points) logs
keep-Due lo hi points [] h = tt
keep-Due lo hi points (l ∷ logs) h = elim (Bool-cases (in_blocks lo hi l)) [
  | inl e ↦
      let k = subst (All (HasPoint points)) (keep_hit lo hi l logs e) h in
      (inr k.0, keep-Due lo hi points logs k.1)
  | inr e ↦ (
    inl e,
    keep-Due lo hi points logs (subst (All (HasPoint points)) (keep_miss lo hi l logs e) h),
  )
]

pub Due-Grows :
    (lo hi : ℕ) (before after : List PricePoint) (logs : List (ChainLog AmmEvent))
    → Grows before after
    → All (Due lo hi before) logs
    → All (Due lo hi after) logs
Due-Grows lo hi before after logs g h =
    All-map (Due lo hi before) (Due lo hi after) logs
      (λ l d. elim d [ inl e ↦ inl e | inr e ↦ inr (g l e) ]) h

-- Two stretches of blocks that meet.
pub Due-join :
    (from lo hi : ℕ) (points : List PricePoint) (l : ChainLog AmmEvent)
    → from ≤ lo
    → Due from (lo - 1) points l
    → Due lo hi points l
    → Due from hi points l
Due-join from lo hi points l f (inr r) b = inr r
Due-join from lo hi points l f (inl e) (inr r) = inr r
Due-join from lo hi points l f (inl e) (inl g) = inl (ground (arith, e, g))

pub Due-shrink :
    (from lo hi : ℕ) (points : List PricePoint) (l : ChainLog AmmEvent)
    → lo ≤ hi
    → Due from hi points l
    → Due from lo points l
Due-shrink from lo hi points l f (inr r) = inr r
Due-shrink from lo hi points l f (inl e) = inl (ground (arith, e))

module _ (u : Unicode) (keccak : Text → ℕ) (cdf : Cdf) (s : IndexerSettings) (node : Node) (now : ℕ)
    (seeds swaps : List (ChainLog AmmEvent)) where
  -- What a window leaves of the points.
  abbrev pub Window : Store → ℕ → ℕ → Store × Bool → Type 0
  Window store lo hi r =
      Grows store.points r.0.points
      × (r.0.last_block ≡ store.last_block)
      × ((r.1 ≡ false) ⊎ All (Due lo hi r.0.points) (seeds ++ swaps))

  amm_lem :
      (points : List PricePoint) (lo hi : ℕ) (a b : Option (List (ChainLog AmmEvent)))
      → Answers a (keep (in_blocks lo hi) seeds)
      → Answers b (keep (in_blocks lo hi) swaps)
      → let r = index_amm cdf node points a b in
        Grows points r.0 × ((r.1 ≡ false) ⊎ All (Due lo hi r.0) (seeds ++ swaps))
  unfolding index_amm
  amm_lem points lo hi none b p q = (λ l r. r, inl refl)
  amm_lem points lo hi (some x) none p q = (λ l r. r, inl refl)
  amm_lem points lo hi (some x) (some y) p q =
      let d = index_logs_lem cdf node (sort_logs (x ++ y)) points in
      (
        d.0,
        elim d.1 [
          | inl e ↦ inl e
          | inr k ↦
              let r = (index_logs cdf node points (sort_logs (x ++ y))).0 in
              let both = All-split (HasPoint r) x y (sort_logs-All (HasPoint r) (x ++ y) k) in
              inr (
                All-append (Due lo hi r) seeds swaps
                  (keep-Due lo hi r seeds (subst (All (HasPoint r)) p both.0))
                  (keep-Due lo hi r swaps (subst (All (HasPoint r)) q both.1)))
        ],
      )

  pub window_lem :
      (store : Store) (lo hi : ℕ) (a b : Option (List (ChainLog FactoryEvent)))
      → Answers (node.seeded_logs lo hi) (keep (in_blocks lo hi) seeds)
      → Answers (node.swap_logs lo hi) (keep (in_blocks lo hi) swaps)
      → Window store lo hi (index_window u keccak cdf node true now store lo hi a b)
  unfolding index_window
  window_lem store lo hi none b p q = (λ l r. r, refl, inl refl)
  window_lem store lo hi (some x) none p q = (λ l r. r, refl, inl refl)
  window_lem store lo hi (some x) (some y) p q =
      let k = amm_lem store.points lo hi (node.seeded_logs lo hi) (node.swap_logs lo hi) p q in
      (k.0, refl, k.1)
