-- ===== src/Indexer/Ready.antt =====
-- The indexer's checkpoint over any number of ticks (backend/app/indexer/listener.py).
use over_under.Prelude.{
  ℕ, ◌+◌, ◌≤◌, ◌<◌, ◌≡◌, refl, sym, subst, Bool, true, false, ◌&&◌, ◌⊎◌, inl, inr, Option, none,
  some, List, [], ◌∷◌, ◌++◌, arith, ltb, leb, keep, if◌then◌else◌, All, Bool-cases,
}
use over_under.Text.{Text, Unicode}
use over_under.Indexer.Price.{Cdf}
use over_under.Indexer.Plan.{IndexerSettings, resolve_start_block, plan_ranges}
use over_under.Indexer.Checkpoint.{Store, load_checkpoint}
use over_under.Indexer.Events.{ChainLog}
use over_under.Indexer.Amm.{AmmEvent, Node}
use over_under.Indexer.Tick.{Tick, index_once, window_of, run_from, at_head}
use over_under.Indexer.Tiles.{Tiles, plan_ranges-Tiles, reach}
use over_under.Indexer.Gapless.{Answers, Due, in_blocks}
use over_under.Indexer.Ticks.{Held, Moved, run_windows_lem}

-- A tick starts behind its checkpoint, unless a configured first block lies further on.
resume :
    (c start_block head chain_id lookback : ℕ)
    → 0 < c
    → start_block ≤ c + 1
    → resolve_start_block c start_block head chain_id lookback ≡ c + 1
unfolding resolve_start_block
resume c start_block head chain_id lookback p q = ground arith

unfoldable pub plan_stops : ℕ → ℕ → ℕ → ℕ → ℕ
plan_stops start end window chunks =
    if leb start end && ltb 0 window then reach start end window chunks else start

plan_nothing :
    (start end window chunks : ℕ)
    → (leb start end && ltb 0 window) ≡ false
    → plan_ranges start end window chunks ≡ []
unfolding plan_ranges
plan_nothing start end window chunks e = ground (arith, e)

pub plan-Tiles :
    (start end window chunks : ℕ)
    → Tiles window end start
        (plan_ranges start end window chunks)
        (plan_stops start end window chunks)
unfolding plan_stops plan_ranges
plan-Tiles start end window chunks = elim (Bool-cases (leb start end && ltb 0 window)) [
  | inl e ↦ rw e (plan_ranges-Tiles start end window chunks (ground arith) (ground arith)).0
  | inr e ↦ rw (e, plan_nothing start end window chunks e) refl
]

-- A checkpoint from which the next tick resumes.
module _ (from : ℕ) (seeds swaps : List (ChainLog AmmEvent)) (s : IndexerSettings) where
  abbrev pub Ready : Store → ℕ → Type 0
  Ready store c = Held from seeds swaps store c × (0 < c) × (s.start_block ≤ c + 1) × (from ≤ c + 1)

  -- The checkpoint that a tick leaves.
  abbrev pub Onward : ℕ → Tick → Type 0
  Onward c t = (d : ℕ) × (c ≤ d) × Ready t.store d

module _ (u : Unicode) (keccak : Text → ℕ) (cdf : Cdf) (s : IndexerSettings) (from : ℕ)
    (seeds swaps : List (ChainLog AmmEvent)) (node : Node) (now : ℕ)
    (seeded_ok : (lo hi : ℕ) → Answers (node.seeded_logs lo hi) (keep (in_blocks lo hi) seeds))
    (swap_ok : (lo hi : ℕ) → Answers (node.swap_logs lo hi) (keep (in_blocks lo hi) swaps)) where
  tick_lem :
      (window head c : ℕ) (store : Store)
      → Ready from seeds swaps s store c
      → Moved from seeds swaps c
          (plan_stops (c + 1) head window s.max_chunks_per_tick)
          (plan_ranges (c + 1) head window s.max_chunks_per_tick)
          (run_from u keccak cdf s true node now window head (store, c))
  tick_lem window head c store r =
      rw (resume c s.start_block head s.chain_id s.lookback_blocks r.1 r.2) (
        run_windows_lem u keccak cdf s now from seeds swaps node window window head seeded_ok
          swap_ok (plan_ranges (c + 1) head window s.max_chunks_per_tick) (c + 1)
          (plan_stops (c + 1) head window s.max_chunks_per_tick) c store
          (plan-Tiles (c + 1) head window s.max_chunks_per_tick) r.0.0 (omega arith) r.3
          (subst (λ x. All (Due from x store.points) (seeds ++ swaps)) (omega arith) r.0.1))

  stops_at :
      (window head c d : ℕ) (ranges : List (ℕ × ℕ))
      → Tiles window head (c + 1) ranges (plan_stops (c + 1) head window s.max_chunks_per_tick)
      → ranges ≡ []
      → d ≡ c
      → d + 1 ≡ plan_stops (c + 1) head window s.max_chunks_per_tick
  stops_at window head c d [] t e f = omega (arith, t, f)
  stops_at window head c d (x ∷ ranges) t e f = absurd (ground (arith, e))

  -- A tick that is through stops where its plan does.
  abbrev pub Through : ℕ → ℕ → ℕ → Tick → Type 0
  Through window head c t =
      (d : ℕ) × (c ≤ d)
      × Ready from seeds swaps s t.store d
      × ((t.ok ≡ false) ⊎ (d + 1 ≡ plan_stops (c + 1) head window s.max_chunks_per_tick))

  pub through_lem :
      (window head c : ℕ) (store : Store)
      → Ready from seeds swaps s store c
      → Through window head c (run_from u keccak cdf s true node now window head (store, c))
  through_lem window head c store r =
      let m = tick_lem window head c store r in
      (
        m.0,
        m.1,
        (m.2, omega (arith, m.1, r.1), omega (arith, m.1, r.2), omega (arith, m.1, r.3)),
        elim m.3 [
          | inl e ↦ inl e
          | inr (inl k) ↦ inr (
              stops_at window head c m.0 (plan_ranges (c + 1) head window s.max_chunks_per_tick)
                (plan-Tiles (c + 1) head window s.max_chunks_per_tick) k.0 k.1)
          | inr (inr e) ↦ inr e
        ],
      )

  pub load_lem :
      (store : Store) (c head : ℕ)
      → store.last_block ≡ some c
      → load_checkpoint store s head ≡ (store, c)
  unfolding load_checkpoint
  load_lem store c head e = rw e refl

  at_head-Onward :
      (block_range c : ℕ) (store : Store) (head : Option ℕ)
      → Ready from seeds swaps s store c
      → Onward from seeds swaps s c (at_head u keccak cdf s true node now store block_range head)
  unfolding at_head
  at_head-Onward block_range c store none r = (c, omega arith, r)
  at_head-Onward block_range c store (some head) r =
      let t = through_lem (window_of s block_range) head c store r in
      subst
        (λ p.
          Onward from seeds swaps s c
            (run_from u keccak cdf s true node now (window_of s block_range) head p))
        (sym (load_lem store c head r.0.0)) (t.0, t.1, t.2)

  pub index_once-Onward :
      (leads : Bool) (block_range c : ℕ) (store : Store)
      → Ready from seeds swaps s store c
      → Onward from seeds swaps s c
          (index_once u keccak cdf s true leads node now store block_range)
  unfolding index_once
  index_once-Onward false block_range c store r = (c, omega arith, r)
  index_once-Onward true block_range c store r = at_head-Onward block_range c store node.head r
