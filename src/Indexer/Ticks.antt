-- ===== src/Indexer/Ticks.antt =====
-- The indexer's checkpoint over any number of ticks (backend/app/indexer/listener.py).
use over_under.Prelude.{
  ℕ, ◌+◌, ◌-◌, ◌≤◌, ◌<◌, ◌≡◌, refl, sym, subst, ◌∙◌, Bool, true, false, ◌⊎◌, inl, inr, Option, none,
  some, List, [], ◌∷◌, ◌++◌, arith, keep, All, All-map, All-both,
}
use over_under.Text.{Text, Unicode}
use over_under.Indexer.Price.{Cdf}
use over_under.Indexer.Plan.{IndexerSettings}
use over_under.Indexer.Checkpoint.{Store, advance_checkpoint, moved}
use over_under.Indexer.Events.{ChainLog}
use over_under.Indexer.Amm.{AmmEvent, Node, index_range}
use over_under.Indexer.Tick.{Tick, run_windows, after_window}
use over_under.Indexer.Tiles.{Tiles}
use over_under.Indexer.Gapless.{
  Answers, Due, Due-Grows, Due-join, Due-shrink, in_blocks, Window, window_lem,
}

module _ (from : ℕ) (seeds swaps : List (ChainLog AmmEvent)) where
  -- The checkpoint, and the points of the events behind it.
  abbrev pub Held : Store → ℕ → Type 0
  Held store c = (store.last_block ≡ some c) × All (Due from c store.points) (seeds ++ swaps)

  abbrev pub Moved : ℕ → ℕ → List (ℕ × ℕ) → Tick → Type 0
  Moved c next ranges t =
      (d : ℕ) × (c ≤ d)
      × Held t.store d
      × ((t.ok ≡ false) ⊎ ((ranges ≡ []) × (d ≡ c)) ⊎ (d + 1 ≡ next))

module _ (u : Unicode) (keccak : Text → ℕ) (cdf : Cdf) (s : IndexerSettings) (now : ℕ) (from : ℕ)
    (seeds swaps : List (ChainLog AmmEvent)) where
  module _ (node : Node) (window max_range end : ℕ)
      (seeded_ok : (lo hi : ℕ) → Answers (node.seeded_logs lo hi) (keep (in_blocks lo hi) seeds))
      (swap_ok : (lo hi : ℕ) → Answers (node.swap_logs lo hi) (keep (in_blocks lo hi) swaps)) where
    range_lem :
        (store : Store) (lo hi : ℕ)
        → Window u keccak cdf s node now seeds swaps store lo hi
            (index_range u keccak cdf node true now store lo hi)
    unfolding index_range
    range_lem store lo hi =
        window_lem u keccak cdf s node now seeds swaps store lo hi (node.created_logs lo hi)
          (node.paused_logs lo hi) (seeded_ok lo hi) (swap_ok lo hi)

    advance_Held :
        (store : Store) (c block : ℕ)
        → store.last_block ≡ some c
        → c ≤ block
        → All (Due from block store.points) (seeds ++ swaps)
        → Held from seeds swaps (advance_checkpoint store block) block
    unfolding advance_checkpoint
    advance_Held store c block e l d = (moved_to store.last_block e, d)
      where
        moved_to : (o : Option ℕ) → o ≡ some c → moved block o ≡ some block
        moved_to none h = absurd (ground (arith, h))
        moved_to (some last) h = ground (arith, h, l)

    after_window_lem :
        (a b c next : ℕ) (rest : List (ℕ × ℕ)) (store : Store) (go_on : Store → Tick)
        (r : Store × Bool)
        → Window u keccak cdf s node now seeds swaps store a b r
        → store.last_block ≡ some c
        → c < a
        → a ≤ b
        → from ≤ a
        → All (Due from (a - 1) store.points) (seeds ++ swaps)
        → Tiles max_range end (b + 1) rest next
        → ((after : Store)
            → Held from seeds swaps after b
            → Moved from seeds swaps b next rest (go_on after))
        → Moved from seeds swaps c next
            ((a, b) ∷ rest)
            (after_window u keccak cdf s true a b go_on r)
    unfolding after_window
    after_window_lem a b c next rest store go_on (after, false) w e l m f d t ih = (
      a - 1,
      omega arith,
      advance_Held after c (a - 1) (w.1 ∙ e) (omega arith)
          (Due-Grows from (a - 1) store.points after.points (seeds ++ swaps) w.0 d),
      inl refl,
    )
    after_window_lem a b c next rest store go_on (after, true) w e l m f d t ih =
        let grown = Due-Grows from (a - 1) store.points after.points (seeds ++ swaps) w.0 d in
        let window_due : All (Due a b after.points) (seeds ++ swaps) = elim w.2 [
          | inl x ↦ absurd (ground (arith, x))
          | inr k ↦ k
        ] in
        let held = advance_Held after c b (w.1 ∙ e) (omega arith) (
          All-both (Due from (a - 1) after.points) (Due a b after.points) (Due from b after.points)
            (seeds ++ swaps) (λ x. Due-join from a b after.points x f) grown window_due) in
        let i = ih (advance_checkpoint after b) held in
        (
          i.0,
          omega (arith, i.1),
          i.2,
          elim i.3 [
            | inl no_luck ↦ inl no_luck
            | inr (inl last) ↦ inr (inr (stopped rest i.0 last.0 last.1 t))
            | inr (inr reached) ↦ inr (inr reached)
          ],
        )
      where
        stopped :
            (rest : List (ℕ × ℕ)) (d : ℕ)
            → rest ≡ []
            → d ≡ b
            → Tiles max_range end (b + 1) rest next
            → d + 1 ≡ next
        stopped [] d e h t = omega (arith, h, t)
        stopped (x ∷ rest) d e h t = absurd (ground (arith, e))

    pub run_windows_lem :
        (ranges : List (ℕ × ℕ)) (lo next c : ℕ) (store : Store)
        → Tiles max_range end lo ranges next
        → store.last_block ≡ some c
        → c < lo
        → from ≤ lo
        → All (Due from (lo - 1) store.points) (seeds ++ swaps)
        → Moved from seeds swaps c next ranges
            (run_windows u keccak cdf s true node now window store ranges)
    unfolding run_windows
    run_windows_lem [] lo next c store t e l f d = (
      c,
      omega arith,
      (
        e,
        All-map (Due from (lo - 1) store.points) (Due from c store.points) (seeds ++ swaps)
            (λ x. Due-shrink from c (lo - 1) store.points x (omega arith)) d,
      ),
      inr (inl (refl, refl)),
    )
    run_windows_lem ((a, b) ∷ rest) lo next c store t e l f d =
        after_window_lem a b c next rest store
          (λ after. run_windows u keccak cdf s true node now window after rest)
          (index_range u keccak cdf node true now store a b) (range_lem store a b) e
          (omega (arith, t.0)) t.1 (omega (arith, t.0))
          (subst (λ x. All (Due from (x - 1) store.points) (seeds ++ swaps)) (sym t.0) d) t.4
          (λ after h.
            run_windows_lem rest (b + 1) next b after t.4 h.0 (omega arith)
              (omega (arith, t.0, t.1))
              (subst (λ x. All (Due from x after.points) (seeds ++ swaps)) (back b) h.1))
      where
        back : (b : ℕ) → b ≡ b + 1 - 1
        back b = omega arith
