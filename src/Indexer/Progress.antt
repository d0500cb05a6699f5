-- ===== src/Indexer/Progress.antt =====
-- The indexer while the node answers every call (backend/app/indexer/listener.py).
use over_under.Prelude.{
  ℕ, zero, suc, ◌+◌, ◌≤◌, ◌<◌, ◌≡◌, refl, sym, subst, min, Bool, true, false, ◌⊎◌, inl, inr, Option,
  none, some, List, [], ◌∷◌, ◌++◌, arith, ltb, keep, Bool-cases, ltb→lt,
}
use native.Mathlib.Nat.{mul-suc}
use over_under.Text.{Text, Unicode}
use over_under.Indexer.Price.{Cdf, Pool, PricePoint}
use over_under.Indexer.Plan.{IndexerSettings, plan_ranges, resolve_start_block}
use over_under.Indexer.Checkpoint.{Store}
use over_under.Indexer.Events.{ChainLog, FactoryEvent, sort_logs}
use over_under.Indexer.Amm.{
  AmmEvent, Node, point_exists, insert_point, condition_of, point_of, point_at, index_log,
  index_logs, index_amm, index_window, index_range,
}
use over_under.Indexer.Tick.{
  Tick, run_windows, after_window, at_head, index_once, window_of, run_from, ticks,
}
use over_under.Indexer.Gapless.{in_blocks}
use over_under.Indexer.Ready.{Ready, through_lem, plan_stops, load_lem}

-- A node that answers every call.
pub record Answering : Type 0 where
  pub head : ℕ
  pub created_logs : ℕ → ℕ → List (ChainLog FactoryEvent)
  pub paused_logs : ℕ → ℕ → List (ChainLog FactoryEvent)
  pub seeded_logs : ℕ → ℕ → List (ChainLog AmmEvent)
  pub swap_logs : ℕ → ℕ → List (ChainLog AmmEvent)
  pub timestamp : ChainLog AmmEvent → ℕ
  pub pool : ChainLog AmmEvent → Pool
  pub commitments : ℕ → Option (ℕ × ℕ)

abbrev pub node_of : Answering → Node
node_of a = record {
  head = some a.head;
  created_logs = λ lo hi. some (a.created_logs lo hi);
  paused_logs = λ lo hi. some (a.paused_logs lo hi);
  seeded_logs = λ lo hi. some (a.seeded_logs lo hi);
  swap_logs = λ lo hi. some (a.swap_logs lo hi);
  timestamp = λ l. some (a.timestamp l);
  pool = λ l. some (a.pool l);
  commitments = a.commitments;
}

module _ (cdf : Cdf) (a : Answering) where
  point_of-some :
      (l : ChainLog AmmEvent) (cid : ℕ)
      → (p : PricePoint) × (point_of cdf (node_of a) l cid ≡ some p)
  unfolding point_of
  point_of-some l cid = go l.event
    where
      go :
          (e : AmmEvent)
          → (p : PricePoint) × (point_at cdf (node_of a) l cid (a.timestamp l) e ≡ some p)
      go (AmmEvent.seeded c) = (_, refl)
      go (AmmEvent.swap c) = (_, refl)

  index_log-some :
      (points : List PricePoint) (l : ChainLog AmmEvent) (c : Option ℕ)
      → (more : List PricePoint) × (index_log cdf (node_of a) points l c ≡ some more)
  unfolding index_log
  index_log-some points l none = (points, refl)
  index_log-some points l (some cid) =
      elim (Bool-cases (point_exists points cid l.block_number l.log_index)) [
        | inl e ↦ (points, rw e refl)
        | inr e ↦
            (insert_point points (point_of-some l cid).0, rw (e, (point_of-some l cid).1) refl)
      ]

  index_logs_through :
      (logs : List (ChainLog AmmEvent)) (points : List PricePoint)
      → (index_logs cdf (node_of a) points logs).1 ≡ true
  unfolding index_logs
  index_logs_through [] points = refl
  index_logs_through (l ∷ logs) points =
      let i = index_log-some points l (condition_of l.event) in rw i.1 (index_logs_through logs i.0)

module _ (u : Unicode) (keccak : Text → ℕ) (cdf : Cdf) (s : IndexerSettings) (a : Answering)
    (now : ℕ) where
  range_through :
      (store : Store) (lo hi : ℕ)
      → (index_range u keccak cdf (node_of a) true now store lo hi).1 ≡ true
  unfolding index_range index_window index_amm
  range_through store lo hi =
      index_logs_through cdf a (sort_logs (a.seeded_logs lo hi ++ a.swap_logs lo hi)) store.points

  after_window_through :
      (lo hi : ℕ) (go : Store → Tick) (r : Store × Bool)
      → r.1 ≡ true
      → ((after : Store) → (go after).ok ≡ true)
      → (after_window u keccak cdf s true lo hi go r).ok ≡ true
  unfolding after_window
  after_window_through lo hi go (after, true) e ih = ih _
  after_window_through lo hi go (after, false) e ih = absurd (ground (arith, e))

  run_windows_through :
      (window : ℕ) (ranges : List (ℕ × ℕ)) (store : Store)
      → (run_windows u keccak cdf s true (node_of a) now window store ranges).ok ≡ true
  unfolding run_windows
  run_windows_through window [] store = refl
  run_windows_through window ((lo, hi) ∷ rest) store =
      after_window_through lo hi
        (λ after. run_windows u keccak cdf s true (node_of a) now window after rest)
        (index_range u keccak cdf (node_of a) true now store lo hi) (range_through store lo hi)
        (λ after. run_windows_through window rest after)

-- A tick on a node that answers reads at least one block more, if there is one.
plan_advances :
    (c head w chunks : ℕ) → 0 < w → 0 < chunks → c < head → c + 2 ≤ plan_stops (c + 1) head w chunks
unfolding plan_stops
plan_advances c head w zero p q r = absurd (omega arith)
plan_advances c head w (suc chunks) p q r = ground (arith, mul-suc w chunks)

least_reached :
    (target c d head w chunks : ℕ) (ok : Bool)
    → 0 < w
    → 0 < chunks
    → target ≤ head
    → c ≤ d
    → ok ≡ true
    → (ok ≡ false) ⊎ (d + 1 ≡ plan_stops (c + 1) head w chunks)
    → min target (c + 1) ≤ d
least_reached target c d head w chunks ok p q h l e (inl f) = absurd (ground (arith, e, f))
least_reached target c d head w chunks ok p q h l e (inr f) = elim (Bool-cases (ltb c head)) [
  | inl g ↦ omega (arith, f, plan_advances c head w chunks p q (ltb→lt c head g))
  | inr g ↦ ground arith
]

module _ (from : ℕ) (seeds swaps : List (ChainLog AmmEvent)) (s : IndexerSettings) where
  abbrev pub Reached : ℕ → Tick → Type 0
  Reached least t = (d : ℕ) × (least ≤ d) × Ready from seeds swaps s t.store d

module _ (u : Unicode) (keccak : Text → ℕ) (cdf : Cdf) (s : IndexerSettings) (from : ℕ)
    (seeds swaps : List (ChainLog AmmEvent)) (chunks_ok : 0 < s.max_chunks_per_tick)
    (range_ok : 0 < s.max_block_range) where
  index_once_reaches :
      (a : Answering) (now : ℕ)
      → ((lo hi : ℕ) → a.seeded_logs lo hi ≡ keep (in_blocks lo hi) seeds)
      → ((lo hi : ℕ) → a.swap_logs lo hi ≡ keep (in_blocks lo hi) swaps)
      → (block_range c target : ℕ) (store : Store) → target ≤ a.head
      → Ready from seeds swaps s store c
      → Reached from seeds swaps s
          (min target (c + 1))
          (index_once u keccak cdf s true true (node_of a) now store block_range)
  unfolding index_once at_head
  index_once_reaches a now p q block_range c target store h r =
      let w = window_of s block_range in
      let t = through_lem u keccak cdf s from seeds swaps (node_of a) now p q w a.head c store r in
      subst
        (λ x.
          Reached from seeds swaps s (min target (c + 1))
            (run_from u keccak cdf s true (node_of a) now w a.head x))
        (sym (load_lem u keccak cdf s from seeds swaps (node_of a) now p q store c a.head r.0.0))
        (
          t.0,
          least_reached target c t.0 a.head w s.max_chunks_per_tick
              (run_from u keccak cdf s true (node_of a) now w a.head (store, c)).ok (ground arith)
              chunks_ok h t.1
              (run_windows_through u keccak cdf s a now w
                (plan_ranges
                  (resolve_start_block c s.start_block a.head s.chain_id s.lookback_blocks) a.head w
                  s.max_chunks_per_tick)
                store)
              t.3,
          t.2,
        )

  -- From such a store, with at least one window for a tick and one block for a window: while this
  -- instance leads and the node answers every call, and answers log queries with the chain's events
  -- of the blocks asked for, n ticks take the checkpoint n blocks on or to any target that every
  -- tick's head has passed, and every event of the AMM with a condition id from `from` up to the
  -- checkpoint has its price point.
  pub ticks_reach :
      (node : ℕ → Answering) (now : ℕ → ℕ)
      → ((i lo hi : ℕ) → (node i).seeded_logs lo hi ≡ keep (in_blocks lo hi) seeds)
      → ((i lo hi : ℕ) → (node i).swap_logs lo hi ≡ keep (in_blocks lo hi) swaps)
      → (n c target : ℕ) (store : Store) → ((i : ℕ) → target ≤ (node i).head)
      → Ready from seeds swaps s store c
      → Reached from seeds swaps s
          (min target (c + n))
          (ticks u keccak cdf s true (λ i. true) (λ i. node_of (node i)) now n store)
  unfolding ticks
  ticks_reach node now p q zero c target store h r = (c, omega arith, r)
  ticks_reach node now p q (suc n) c target store h r =
      let b = ticks u keccak cdf s true (λ i. true) (λ i. node_of (node i)) now n store in
      let i = ticks_reach node now p q n c target store h r in
      let j =
        index_once_reaches (node n) (now n) (p n) (q n) b.block_range i.0 target b.store (h n)
          i.2 in
      (j.0, omega (arith, i.1, j.1), j.2)
