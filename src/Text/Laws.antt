-- ===== src/Text/Laws.antt =====
-- Comparing and stripping texts, and texts as sets of words.
use over_under.Prelude.{
  ℕ, ◌+◌, ◌≡◌, refl, inl, inr, true, false, List, [], ◌∷◌, arith, ==-refl, if◌then◌else◌, keep,
  length, sum_by, Bool-cases,
}
use over_under.Text.{
  Text, Unicode, same_text, is_in, lstrip, rstrip, strip, keep_head, distinct, subset, same_set,
}

pub same_text_refl : (t : Text) → same_text t t ≡ true
same_text_refl [] = refl
same_text_refl (x ∷ t) = ground (arith, ==-refl x, same_text_refl t)

pub same_text_eq : (s t : Text) → same_text s t ≡ true → s ≡ t
same_text_eq [] [] h = refl
same_text_eq [] (y ∷ t) h = absurd (ground arith)
same_text_eq (x ∷ s) [] h = absurd (ground arith)
same_text_eq (x ∷ s) (y ∷ t) h = ground (arith, same_text_eq s t)

pub same_text_sym : (s t : Text) → same_text s t ≡ same_text t s
same_text_sym [] [] = refl
same_text_sym [] (y ∷ t) = refl
same_text_sym (x ∷ s) [] = refl
same_text_sym (x ∷ s) (y ∷ t) = ground (arith, same_text_sym s t)

module _ (u : Unicode) where
  rstrip-keep_head :
      (c : ℕ) (r : Text) → rstrip u r ≡ r → rstrip u (keep_head u c r) ≡ keep_head u c r
  rstrip-keep_head c [] e = ground arith
  rstrip-keep_head c (x ∷ t) e = rw e refl

  rstrip_idem : (t : Text) → rstrip u (rstrip u t) ≡ rstrip u t
  rstrip_idem [] = refl
  rstrip_idem (c ∷ t) = rstrip-keep_head c (rstrip u t) (rstrip_idem t)

  lstrip-keep_head :
      (c : ℕ) (r : Text) → u.is_space c ≡ false → lstrip u (keep_head u c r) ≡ keep_head u c r
  lstrip-keep_head c [] e = ground arith
  lstrip-keep_head c (x ∷ t) e = ground arith

  lstrip-strip : (t : Text) → lstrip u (strip u t) ≡ strip u t
  lstrip-strip [] = refl
  lstrip-strip (c ∷ t) = ground (arith, lstrip-strip t, lstrip-keep_head c (rstrip u t))

  pub strip_idem : (t : Text) → strip u (strip u t) ≡ strip u t
  strip_idem t = rw (lstrip-strip t) (rstrip_idem (lstrip u t))

-- A word counted in a list of words.
abbrev hit : Text → Text → ℕ
hit w v = if same_text w v then 1 else 0

abbrev hits : List Text → Text → ℕ
hits vs w = sum_by (hit w) vs

-- No word stands twice.
abbrev pub Distinct : List Text → Type 0
Distinct [] = Unit
Distinct (w ∷ ws) = (is_in w ws ≡ false) × Distinct ws

hits-Distinct :
    (w : Text) (vs : List Text) → Distinct vs → hits vs w ≡ (if is_in w vs then 1 else 0)
hits-Distinct w [] d = refl
hits-Distinct w (v ∷ vs) d = ground (arith, hits-Distinct w vs d.1, same_text_eq w v)

length-keep-hits :
    (ws vs : List Text) → Distinct vs → length (keep (λ w. is_in w vs) ws) ≡ sum_by (hits vs) ws
length-keep-hits [] vs d = refl
length-keep-hits (w ∷ ws) vs d = ground (arith, length-keep-hits ws vs d, hits-Distinct w vs d)

sum_by-hits_nil : (ws : List Text) → sum_by (hits []) ws ≡ 0
sum_by-hits_nil [] = refl
sum_by-hits_nil (w ∷ ws) = omega (arith, sum_by-hits_nil ws)

sum_by-hits_cons :
    (v : Text) (vs ws : List Text) → sum_by (hits (v ∷ vs)) ws ≡ hits ws v + sum_by (hits vs) ws
sum_by-hits_cons v vs [] = refl
sum_by-hits_cons v vs (w ∷ ws) = ground (arith, sum_by-hits_cons v vs ws, same_text_sym w v)

hits_swap : (ws vs : List Text) → sum_by (hits vs) ws ≡ sum_by (hits ws) vs
hits_swap ws [] = sum_by-hits_nil ws
hits_swap ws (v ∷ vs) = omega (arith, sum_by-hits_cons v vs ws, hits_swap ws vs)

pub overlap_swap :
    (ws vs : List Text)
    → Distinct ws
    → Distinct vs
    → length (keep (λ w. is_in w vs) ws) ≡ length (keep (λ v. is_in v ws) vs)
overlap_swap ws vs d e =
    omega (arith, length-keep-hits ws vs e, length-keep-hits vs ws d, hits_swap ws vs)

is_in-distinct : (w : Text) (ws : List Text) → is_in w (distinct ws) ≡ is_in w ws
is_in-distinct w [] = refl
is_in-distinct w (v ∷ ws) = elim (Bool-cases (same_text w v)) [
  | inl e ↦ ground (arith, same_text_eq w v e, is_in-distinct w ws)
  | inr e ↦ ground (arith, is_in-distinct w ws)
]

pub distinct-Distinct : (ws : List Text) → Distinct (distinct ws)
distinct-Distinct [] = tt
distinct-Distinct (w ∷ ws) = ground (arith, is_in-distinct w ws, distinct-Distinct ws)

is_in_head : (w : Text) (ws : List Text) → is_in w (w ∷ ws) ≡ true
is_in_head w ws = ground (arith, same_text_refl w)

is_in_tail : (v w : Text) (ws : List Text) → is_in v ws ≡ true → is_in v (w ∷ ws) ≡ true
is_in_tail v w ws h = ground arith

pub subset_of :
    (ws vs : List Text) → ((w : Text) → is_in w ws ≡ true → is_in w vs ≡ true) → subset ws vs ≡ true
subset_of [] vs h = refl
subset_of (w ∷ ws) vs h =
    ground (arith, h w (is_in_head w ws), subset_of ws vs (λ v e. h v (is_in_tail v w ws e)))

pub same_set_sym : (ws vs : List Text) → same_set ws vs ≡ same_set vs ws
same_set_sym ws vs = ground arith
