-- ===== src/Indexer/Captured.antt =====
-- Which events have their price point after a window (backend/app/indexer/listener.py).
use over_under.Prelude.{
  ℕ, ◌≡◌, refl, sym, subst, Bool, true, false, ◌⊎◌, inl, inr, Option, none, some, List, [], ◌∷◌,
  ◌++◌, arith, ==-refl, any, All, Bool-cases,
}
use over_under.Indexer.Price.{Cdf, PricePoint, build_seed_point}
use over_under.Indexer.Events.{ChainLog}
use over_under.Indexer.Amm.{
  AmmEvent, Node, is_at, point_exists, insert_point, condition_of, point_of, insert_made,
  go_through, index_log, index_logs,
}

abbrev pub Recorded : List PricePoint → ChainLog AmmEvent → Option ℕ → Type 0
Recorded points l none = Unit
Recorded points l (some cid) = point_exists points cid l.block_number l.log_index ≡ true

-- An event without a condition id has no point.
abbrev pub HasPoint : List PricePoint → ChainLog AmmEvent → Type 0
HasPoint points l = Recorded points l (condition_of l.event)

-- No point is lost.
abbrev pub Grows : List PricePoint → List PricePoint → Type 0
Grows before after = (l : ChainLog AmmEvent) → HasPoint before l → HasPoint after l

any_append :
    (p : PricePoint → Bool) (xs ys : List PricePoint) → any p xs ≡ true → any p (xs ++ ys) ≡ true
any_append p [] ys h = cc
any_append p (x ∷ xs) ys h = ground (arith, any_append p xs ys)

any_last :
    (p : PricePoint → Bool) (xs : List PricePoint) (y : PricePoint)
    → p y ≡ true
    → any p (xs ++ y ∷ []) ≡ true
any_last p [] y h = ground (arith, h)
any_last p (x ∷ xs) y h = ground (arith, any_last p xs y)

insert_point_mono :
    (points : List PricePoint) (p : PricePoint) (cid block i : ℕ)
    → point_exists points cid block i ≡ true
    → point_exists (insert_point points p) cid block i ≡ true
unfolding insert_point
insert_point_mono points p cid block i h =
    ground (arith, any_append (is_at cid block i) points (p ∷ []) h)

insert_point_self :
    (points : List PricePoint) (p : PricePoint)
    → point_exists (insert_point points p) p.condition_id p.block_number p.log_index ≡ true
unfolding insert_point
insert_point_self points p = ground (
  arith,
  any_last (is_at p.condition_id p.block_number p.log_index) points p
      (ground (arith, ==-refl p.condition_id, ==-refl p.block_number, ==-refl p.log_index)),
)

insert_point-Grows :
    (points : List PricePoint) (p : PricePoint) → Grows points (insert_point points p)
insert_point-Grows points p l h = go (condition_of l.event) h
  where
    go : (c : Option ℕ) → Recorded points l c → Recorded (insert_point points p) l c
    go none h = tt
    go (some cid) h = insert_point_mono points p cid l.block_number l.log_index h

some_eq : {a b : List PricePoint} → some a ≡ some b → a ≡ b
some_eq e = cc e

module _ (cdf : Cdf) (node : Node) where
  -- The point of an event carries the event's key.
  point_of_key :
      (l : ChainLog AmmEvent) (cid : ℕ) (p : PricePoint)
      → point_of cdf node l cid ≡ some p
      → (p.condition_id ≡ cid) × (p.block_number ≡ l.block_number) × (p.log_index ≡ l.log_index)
  unfolding point_of build_seed_point
  point_of_key l cid p h = ground (arith, h)

  -- What an answer says of the points after it.
  abbrev After : List PricePoint → ChainLog AmmEvent → Option ℕ → List PricePoint → Type 0
  After points l c more = Grows points more × Recorded more l c

  insert_made_lem :
      (points more : List PricePoint) (l : ChainLog AmmEvent) (cid : ℕ) (o : Option PricePoint)
      → point_of cdf node l cid ≡ o
      → insert_made cdf node points o ≡ some more
      → After points l (some cid) more
  insert_made_lem points more l cid none e h = absurd (ground (arith, h))
  insert_made_lem points more l cid (some p) e h =
      let k = point_of_key l cid p e in
      subst (After points l (some cid)) (some_eq h)
        (insert_point-Grows points p, rw (sym k.0, sym k.1, sym k.2) (insert_point_self points p))

  index_log_lem :
      (points more : List PricePoint) (l : ChainLog AmmEvent) (c : Option ℕ)
      → index_log cdf node points l c ≡ some more
      → After points l c more
  unfolding index_log
  index_log_lem points more l none h = subst (After points l none) (some_eq h) (λ k r. r, tt)
  index_log_lem points more l (some cid) h =
      elim (Bool-cases (point_exists points cid l.block_number l.log_index)) [
        | inl e ↦ subst (After points l (some cid)) (some_eq (ground (arith, e, h))) (λ k r. r, e)
        | inr e ↦
            insert_made_lem points more l cid (point_of cdf node l cid) refl (ground (arith, e, h))
      ]

  -- The whole loop: no point is lost, and if it gets through, every event has its point.
  abbrev pub Done : List PricePoint → List (ChainLog AmmEvent) → List PricePoint × Bool → Type 0
  Done points logs r = Grows points r.0 × ((r.1 ≡ false) ⊎ All (HasPoint r.0) logs)

  go_through_lem :
      (x : ChainLog AmmEvent) (logs : List (ChainLog AmmEvent)) (points : List PricePoint)
      (o : Option (List PricePoint))
      → index_log cdf node points x (condition_of x.event) ≡ o
      → ((more : List PricePoint) → Done more logs (index_logs cdf node more logs))
      → Done points
          (x ∷ logs)
          (go_through cdf node points (λ more. index_logs cdf node more logs) o)
  go_through_lem x logs points none e ih = (λ l r. r, inl refl)
  go_through_lem x logs points (some more) e ih =
      let a = index_log_lem points more x (condition_of x.event) e in
      let d = ih more in
      (λ l r. d.0 l (a.0 l r), elim d.1 [ inl f ↦ inl f | inr g ↦ inr (d.0 x a.1, g) ])

  pub index_logs_lem :
      (logs : List (ChainLog AmmEvent)) (points : List PricePoint)
      → Done points logs (index_logs cdf node points logs)
  unfolding index_logs
  index_logs_lem [] points = (λ l r. r, inr tt)
  index_logs_lem (x ∷ logs) points =
      go_through_lem x logs points (index_log cdf node points x (condition_of x.event)) refl
        (λ more. index_logs_lem logs more)
