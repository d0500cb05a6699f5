-- ===== src/Prelude/Table.antt =====
-- A database table as the list of its rows, with the primary key read by a function.
use Prim.Native.Nat.{ℕ, ◌+◌}
use mathlib.Core.Path.{◌≡◌, refl}
use mathlib.Core.Logic.{◌≢◌, inl, inr}
use mathlib.Core.Bool.{Bool, true}
use mathlib.Core.Option.{Option, none, some}
use mathlib.Core.List.{List, [], ◌∷◌, ◌++◌, map}
use native.Mathlib.Omega.{arith}
use over_under.Prelude.Tests.{◌==◌, if◌then◌else◌, Bool-cases}
use over_under.Prelude.Lists.{All, All-both, All-append, keep, sum_by}

module _ {ℓ} {R : Type ℓ} (key : R → ℕ) where
  -- SELECT ... WHERE key = k
  abbrev pub find : ℕ → List R → Option R
  find k [] = none
  find k (r ∷ rows) = if key r == k then some r else find k rows

  -- UPDATE ... WHERE key = k
  abbrev pub modify : ℕ → (R → R) → List R → List R
  modify k f [] = []
  modify k f (r ∷ rows) = (if key r == k then f r else r) ∷ modify k f rows

  -- The key is written in one row only.
  abbrev pub Keyed : List R → Type ℓ
  Keyed [] = Unit
  Keyed (r ∷ rows) = (find (key r) rows ≡ none) × Keyed rows

  pub find-All {κ} :
      (P : R → Type κ) (k : ℕ) (rows : List R) (r : R) → All P rows → find k rows ≡ some r → P r
  find-All P k [] r h e = cc
  find-All P k (x ∷ rows) r h e = ground (arith, find-All P k rows r h.1)

  pub find-key : (k : ℕ) (rows : List R) (r : R) → find k rows ≡ some r → key r ≡ k
  find-key k [] r e = cc
  find-key k (x ∷ rows) r e = ground (arith, find-key k rows r)

  pub find-append :
      (k : ℕ) (rows more : List R) (r : R) → find k rows ≡ some r → find k (rows ++ more) ≡ some r
  find-append k [] more r e = cc
  find-append k (x ∷ rows) more r e = ground (arith, find-append k rows more r)

  pub find-none-All : (k : ℕ) (rows : List R) → find k rows ≡ none → All (λ r. key r ≢ k) rows
  find-none-All k [] e = tt
  find-none-All k (x ∷ rows) e = elim (Bool-cases (key x == k)) [
    | inl hit ↦ cc
    | inr miss ↦ (λ h. ground arith, find-none-All k rows (ground arith))
  ]

  -- Each row is found under its own key.
  pub Keyed-found : (rows : List R) → Keyed rows → All (λ r. find (key r) rows ≡ some r) rows
  Keyed-found [] u = tt
  Keyed-found (x ∷ rows) u = (
    ground arith,
    All-both (λ r. key r ≢ key x) (λ r. find (key r) rows ≡ some r) _ rows (λ r ne e. ground arith)
        (find-none-All (key x) rows u.0) (Keyed-found rows u.1),
  )

  pub find-keep-none :
      (p : R → Bool) (k : ℕ) (rows : List R) → find k rows ≡ none → find k (keep p rows) ≡ none
  find-keep-none p k [] e = refl
  find-keep-none p k (x ∷ rows) e = ground (arith, find-keep-none p k rows)

  pub keep-Keyed : (p : R → Bool) (rows : List R) → Keyed rows → Keyed (keep p rows)
  keep-Keyed p [] u = tt
  keep-Keyed p (x ∷ rows) u =
      ground (arith, find-keep-none p (key x) rows u.0, keep-Keyed p rows u.1)

  pub find-keep :
      (p : R → Bool) (k : ℕ) (rows : List R) (r : R)
      → find k rows ≡ some r
      → p r ≡ true
      → find k (keep p rows) ≡ some r
  find-keep p k [] r e h = cc
  find-keep p k (x ∷ rows) r e h = ground (arith, find-keep p k rows r)

module _ {ℓ} {R : Type ℓ} (key : R → ℕ) (k : ℕ) (f : R → R) where
  -- What an update may break is asked of the rows with that key alone.
  pub All-modify {κ} :
      (P : R → Type κ) (rows : List R)
      → ((r : R) → P r → P (f r))
      → All P rows
      → All P (modify key k f rows)
  All-modify P [] h a = tt
  All-modify P (x ∷ rows) h a = ground (arith, h x, All-modify P rows h a.1)

  pub find-modify_self :
      (rows : List R) (r : R)
      → ((x : R) → key (f x) ≡ key x)
      → find key k rows ≡ some r
      → find key k (modify key k f rows) ≡ some (f r)
  find-modify_self [] r h e = cc
  find-modify_self (x ∷ rows) r h e = ground (arith, h x, find-modify_self rows r h)

  pub find-modify_ne :
      (j : ℕ) (rows : List R)
      → ((x : R) → key (f x) ≡ key x)
      → j ≢ k
      → find key j (modify key k f rows) ≡ find key j rows
  find-modify_ne j [] h ne = refl
  find-modify_ne j (x ∷ rows) h ne = ground (arith, h x, find-modify_ne j rows h ne)

  pub modify_missing : (rows : List R) → find key k rows ≡ none → modify key k f rows ≡ rows
  modify_missing [] e = refl
  modify_missing (x ∷ rows) e = ground (arith, modify_missing rows)

  -- A column's sum moves by what the one row moves.
  pub sum_by-modify :
      (col : R → ℕ) (rows : List R) (r : R)
      → Keyed key rows
      → find key k rows ≡ some r
      → sum_by col (modify key k f rows) + col r ≡ sum_by col rows + col (f r)
  sum_by-modify col [] r u e = cc
  sum_by-modify col (x ∷ rows) r u e =
      ground (arith, sum_by-modify col rows r u.1, modify_missing rows)

  pub find-modify-none :
      (j : ℕ) (rows : List R)
      → ((x : R) → key (f x) ≡ key x)
      → find key j rows ≡ none
      → find key j (modify key k f rows) ≡ none
  find-modify-none j [] h e = refl
  find-modify-none j (x ∷ rows) h e = ground (arith, h x, find-modify-none j rows h)

  pub modify-Keyed :
      (rows : List R)
      → ((x : R) → key (f x) ≡ key x)
      → Keyed key rows
      → Keyed key (modify key k f rows)
  modify-Keyed [] h u = tt
  modify-Keyed (x ∷ rows) h u =
      ground (arith, h x, find-modify-none (key x) rows h u.0, modify-Keyed rows h u.1)

  pub find-map :
      (rows : List R) (r : R)
      → ((x : R) → key (f x) ≡ key x)
      → find key k rows ≡ some r
      → find key k (map f rows) ≡ some (f r)
  find-map [] r h e = cc
  find-map (x ∷ rows) r h e = ground (arith, h x, find-map rows r h)

-- INSERT ... ON CONFLICT DO NOTHING
module _ {ℓ} {R : Type ℓ} (key : R → ℕ) where
  abbrev pub unless_there : Option R → R → List R → List R
  unless_there none r rows = rows ++ r ∷ []
  unless_there (some old) r rows = rows

  abbrev pub insert_ignore : R → List R → List R
  insert_ignore r rows = unless_there (find key (key r) rows) r rows

  find-append-miss :
      (k : ℕ) (rows more : List R)
      → find key k rows ≡ none
      → find key k (rows ++ more) ≡ find key k more
  find-append-miss k [] more e = refl
  find-append-miss k (x ∷ rows) more e = ground (arith, find-append-miss k rows more)

  pub append-Keyed :
      (r : R) (rows : List R)
      → find key (key r) rows ≡ none
      → Keyed key rows
      → Keyed key (rows ++ r ∷ [])
  append-Keyed r [] e u = (refl, tt)
  append-Keyed r (x ∷ rows) e u =
      ground (arith, append-Keyed r rows, find-append-miss (key x) rows (r ∷ []) u.0)

  pub find-append_self :
      (r : R) (rows : List R)
      → find key (key r) rows ≡ none
      → find key (key r) (rows ++ r ∷ []) ≡ some r
  find-append_self r [] e = ground arith
  find-append_self r (x ∷ rows) e = ground (arith, find-append_self r rows)

  pub insert_ignore-Keyed :
      (r : R) (rows : List R) → Keyed key rows → Keyed key (insert_ignore r rows)
  insert_ignore-Keyed r rows u = go (find key (key r) rows) refl
    where
      go : (o : Option R) → find key (key r) rows ≡ o → Keyed key (unless_there o r rows)
      go none e = append-Keyed r rows e u
      go (some old) e = u

  pub insert_ignore-All {κ} :
      (P : R → Type κ) (r : R) (rows : List R) → P r → All P rows → All P (insert_ignore r rows)
  insert_ignore-All P r rows p a = go (find key (key r) rows)
    where
      go : (o : Option R) → All P (unless_there o r rows)
      go none = All-append P rows (r ∷ []) a (p, tt)
      go (some old) = a

  -- The row that the statement leaves under the key: the old one, if there is one.
  abbrev pub kept : Option R → R → R
  kept none r = r
  kept (some old) r = old

  pub find-insert_ignore :
      (r : R) (rows : List R)
      → find key (key r) (insert_ignore r rows) ≡ some (kept (find key (key r) rows) r)
  find-insert_ignore r rows = go (find key (key r) rows) refl
    where
      go :
          (o : Option R)
          → find key (key r) rows ≡ o
          → find key (key r) (unless_there o r rows) ≡ some (kept o r)
      go none e = find-append_self r rows e
      go (some old) e = e

  -- An update of the one row with the key.
  pub All-modify_found {κ} :
      (P : R → Type κ) (k : ℕ) (f : R → R) (rows : List R) (r : R)
      → Keyed key rows
      → find key k rows ≡ some r
      → P (f r)
      → All P rows
      → All P (modify key k f rows)
  All-modify_found P k f [] r u e p a = tt
  All-modify_found P k f (x ∷ rows) r u e p a = elim (Bool-cases (key x == k)) [
    | inl hit ↦ ground (arith, modify_missing key k f rows)
    | inr miss ↦ ground (arith, All-modify_found P k f rows r u.1)
  ]
