-- ===== src/Orderbook/Match/Priority.antt =====
-- The makers that a match visits: who they are, and the order of price and time.
use mathlib.Core.List.{Perm, Mem, mem-cons_self, mem-cons_of_mem}
use mathlib.Core.List.Perm
use over_under.Prelude.{
  ℕ, ◌≤◌, ◌<◌, ◌≡◌, ◌⊎◌, inl, inr, Bool, true, false, List, [], ◌∷◌, arith, All, All-map, All-both,
  All-keep, keep, keep-All, Bool-cases,
}
use over_under.Db.{Order}
use over_under.Orderbook.Match.{before, insert, sort, resting, can_make, makers_of}

pub insert-All {κ} :
    (P : Order → Type κ) (buy : Bool) (o : Order) (xs : List Order)
    → P o
    → All P xs
    → All P (insert buy o xs)
unfolding insert
insert-All P buy o [] h hs = (h, tt)
insert-All P buy o (x ∷ xs) h hs = elim (Bool-cases (before buy o x)) [
  | inl e ↦ rw e (h, hs)
  | inr e ↦ rw e (hs.0, insert-All P buy o xs h hs.1)
]

pub sort-All {κ} :
    (P : Order → Type κ) (buy : Bool) (xs : List Order) → All P xs → All P (sort buy xs)
unfolding sort
sort-All P buy [] h = tt
sort-All P buy (x ∷ xs) h = insert-All P buy x (sort buy xs) h.0 (sort-All P buy xs h.1)

insert-perm : (buy : Bool) (o : Order) (xs : List Order) → Perm (insert buy o xs) (o ∷ xs)
unfolding insert
insert-perm buy o [] = Perm.refl _
insert-perm buy o (x ∷ xs) = elim (Bool-cases (before buy o x)) [
  | inl e ↦ rw e (Perm.refl _)
  | inr e ↦ rw e (Perm.trans (Perm.cons x (insert-perm buy o xs)) (Perm.swap o x xs))
]

sort-perm : (buy : Bool) (xs : List Order) → Perm (sort buy xs) xs
unfolding sort
sort-perm buy [] = Perm.refl []
sort-perm buy (x ∷ xs) =
    Perm.trans (insert-perm buy x (sort buy xs)) (Perm.cons x (sort-perm buy xs))

-- `a` is served before `b`: at a better price for the incoming side, or at the same price with the
-- lower id.
abbrev pub Precedes : Bool → Order → Order → Type 0
Precedes true a b = (a.price < b.price) ⊎ ((a.price ≡ b.price) × (a.id ≤ b.id))
Precedes false a b = (b.price < a.price) ⊎ ((a.price ≡ b.price) × (a.id ≤ b.id))

before-Precedes : (buy : Bool) (a b : Order) → before buy a b ≡ true → Precedes buy a b
before-Precedes true a b h = ground arith
before-Precedes false a b h = ground arith

after-Precedes : (buy : Bool) (a b : Order) → before buy a b ≡ false → Precedes buy b a
after-Precedes true a b h = ground arith
after-Precedes false a b h = ground arith

Precedes-trans :
    (buy : Bool) (a b c : Order) → Precedes buy a b → Precedes buy b c → Precedes buy a c
Precedes-trans true a b c h k = ground arith
Precedes-trans false a b c h k = ground arith

-- Every order precedes all that stand behind it.
abbrev pub InPriority : Bool → List Order → Type 0
InPriority buy [] = Unit
InPriority buy (x ∷ xs) = All (Precedes buy x) xs × InPriority buy xs

All-Precedes :
    (buy : Bool) (a b : Order) (xs : List Order)
    → Precedes buy a b
    → All (Precedes buy b) xs
    → All (Precedes buy a) xs
All-Precedes buy a b [] h hs = tt
All-Precedes buy a b (x ∷ xs) h hs =
    (Precedes-trans buy a b x h hs.0, All-Precedes buy a b xs h hs.1)

insert-InPriority :
    (buy : Bool) (o : Order) (xs : List Order)
    → InPriority buy xs
    → InPriority buy (insert buy o xs)
unfolding insert
insert-InPriority buy o [] h = (tt, tt)
insert-InPriority buy o (x ∷ xs) h = elim (Bool-cases (before buy o x)) [
  | inl e ↦
      let first = before-Precedes buy o x e in rw e ((first, All-Precedes buy o x xs first h.0), h)
  | inr e ↦ rw e (
    insert-All (Precedes buy x) buy o xs (after-Precedes buy o x e) h.0,
    insert-InPriority buy o xs h.1,
  )
]

sort-InPriority : (buy : Bool) (xs : List Order) → InPriority buy (sort buy xs)
unfolding sort
sort-InPriority buy [] = tt
sort-InPriority buy (x ∷ xs) = insert-InPriority buy x (sort buy xs) (sort-InPriority buy xs)

-- The makers come in price-time priority, and they are exactly the resting rows that cross the
-- incoming order and have something left, each as often as it is in the table.
pub makers_of_lem :
    (incoming : Order) (min_expiry : ℕ) (rows : List Order)
    → InPriority incoming.is_buy (makers_of incoming min_expiry rows)
      × Perm
          (makers_of incoming min_expiry rows)
          (keep (can_make incoming min_expiry) (keep (resting incoming min_expiry) rows))
unfolding makers_of
makers_of_lem incoming min_expiry rows =
    let able = keep (can_make incoming min_expiry) (keep (resting incoming min_expiry) rows) in
    (sort-InPriority incoming.is_buy able, sort-perm incoming.is_buy able)

-- A row of the book that may make the incoming order.
abbrev pub Seen : Order → ℕ → List Order → Order → Type 0
Seen incoming min_expiry rows o = Mem o rows × (can_make incoming min_expiry o ≡ true)

All-Mem : (rows : List Order) → All (λ o. Mem o rows) rows
All-Mem [] = tt
All-Mem (r ∷ rows) = (
  mem-cons_self,
  All-map (λ o. Mem o rows) (λ o. Mem o (r ∷ rows)) rows (λ o. mem-cons_of_mem r) (All-Mem rows),
)

pub makers_of-Seen :
    (incoming : Order) (min_expiry : ℕ) (rows : List Order)
    → All (Seen incoming min_expiry rows) (makers_of incoming min_expiry rows)
unfolding makers_of
makers_of-Seen incoming min_expiry rows =
    let some_resting = keep (resting incoming min_expiry) rows in
    let able = keep (can_make incoming min_expiry) some_resting in
    sort-All (Seen incoming min_expiry rows) incoming.is_buy able (
      All-both (λ o. Mem o rows) (λ o. can_make incoming min_expiry o ≡ true) _ able
        (λ o m c. (m, c))
        (All-keep (λ o. Mem o rows) (can_make incoming min_expiry) some_resting
          (All-keep (λ o. Mem o rows) (resting incoming min_expiry) rows (All-Mem rows)))
        (keep-All (can_make incoming min_expiry) some_resting))
