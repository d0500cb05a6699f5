-- ===== src/Indexer/Tiles.antt =====
-- The windows of `plan_ranges` (backend/app/indexer/listener.py).
use over_under.Prelude.{
  ℕ, suc, zero, ◌+◌, ◌-◌, ◌*◌, ◌≤◌, ◌<◌, min, ◌≡◌, refl, subst, sym, ◌||◌, inl, inr, List, [], ◌∷◌,
  arith, ltb, leb, ◌==◌, Bool-cases, length, leb→le,
}
use native.Mathlib.Nat.{mul-suc}
use over_under.Indexer.Plan.{windows, plan_ranges}

-- The windows follow each other without a gap from `lo` up to just before `next`; none is empty, longer
-- than `max_range` or past `end`.
abbrev pub Tiles : ℕ → ℕ → ℕ → List (ℕ × ℕ) → ℕ → Type 0
Tiles max_range end lo [] next = lo ≡ next
Tiles max_range end lo ((a, b) ∷ rest) next =
    (a ≡ lo) × (a ≤ b) × (b ≤ end) × (b + 1 ≤ a + max_range) × Tiles max_range end (b + 1) rest next

-- Where so many windows stop.
abbrev pub reach : ℕ → ℕ → ℕ → ℕ → ℕ
reach lo end max_range chunks = min (end + 1) (lo + max_range * chunks)

reach_step :
    (lo end r chunks : ℕ)
    → lo ≤ end
    → 0 < r
    → reach lo end r (suc chunks) ≡ reach (min (lo + r - 1) end + 1) end r chunks
reach_step lo end r chunks q p = omega (arith, mul-suc r chunks)

windows-Tiles :
    (max_range end : ℕ) (chunks lo : ℕ)
    → 0 < max_range
    → lo ≤ end + 1
    → Tiles max_range end lo (windows lo end max_range chunks) (reach lo end max_range chunks)
unfolding windows
windows-Tiles r end zero lo p q = omega arith
windows-Tiles r end (suc chunks) lo p q = elim (Bool-cases (leb lo end)) [
  | inr e ↦ rw e (ground arith)
  | inl e ↦
      let inside = leb→le lo end e in
      let hi = min (lo + r - 1) end in
      rw e (
        refl,
        omega arith,
        omega arith,
        omega arith,
        subst (Tiles r end (hi + 1) (windows (hi + 1) end r chunks))
            (sym (reach_step lo end r chunks inside p))
            (windows-Tiles r end chunks (hi + 1) p (omega arith)),
      )
]

windows-length : (lo end r chunks : ℕ) → length (windows lo end r chunks) ≤ chunks
unfolding windows
windows-length lo end r zero = omega arith
windows-length lo end r (suc chunks) =
    ground (arith, windows-length (min (lo + r - 1) end + 1) end r chunks)

-- When there are blocks to read and a window has room for one, the windows of a tick follow each
-- other without a gap from the start as far as the head or their number lets them, none is empty or
-- too long, and there are at most as many as allowed.
pub plan_ranges-Tiles :
    (start end max_range max_chunks : ℕ)
    → start ≤ end
    → 0 < max_range
    → Tiles max_range end start
        (plan_ranges start end max_range max_chunks)
        (reach start end max_range max_chunks)
      × (length (plan_ranges start end max_range max_chunks) ≤ max_chunks)
unfolding plan_ranges
plan_ranges-Tiles start end max_range zero s r =
    ground (arith, windows-Tiles max_range end 0 start r (omega arith))
plan_ranges-Tiles start end max_range (suc chunks) s r =
    elim (Bool-cases (ltb end start || max_range == 0 || suc chunks == 0)) [
      | inl e ↦ absurd (ground (arith, e))
      | inr e ↦ rw e (
        windows-Tiles max_range end (suc chunks) start r (omega arith),
        windows-length start end max_range (suc chunks),
      )
    ]
