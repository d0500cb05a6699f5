-- ===== src/Listings/Duplicates.antt =====
-- The duplicate gate of backend/app/markets/listing_gates.py.
use over_under.Prelude.{
  ◌≡◌, refl, ap, sym, subst, ◌∙◌, Bool, true, false, not, List, [], ◌∷◌, arith, if◌then◌else◌, any,
  keep, All, ◌⊎◌, inl, inr,
}
use over_under.Text.{Text, Unicode, is_in, same_set}
use over_under.Text.Laws.{
  same_text_refl, same_text_eq, same_text_sym, same_set_sym, overlap_swap, Distinct,
  distinct-Distinct, subset_of,
}
use over_under.Listings.Gates.{
  Gist, near, matches, is_empty, gist, meaningful_tokens, is_duplicate, plain_words,
  duplicate_stopwords,
}

near_sym : (ws vs : List Text) → Distinct ws → Distinct vs → near ws vs ≡ near vs ws
unfolding near
near_sym ws vs d e = ground (arith, overlap_swap ws vs d e)

matches_swap : (g h : Gist) → Distinct g.words → Distinct h.words → matches g h ≡ matches h g
unfolding matches
matches_swap g h d e = ground (
  arith,
  same_text_sym g.normal h.normal,
  same_set_sym g.words h.words,
  same_set_sym g.numbers h.numbers,
  near_sym g.words h.words d e,
)

matches_self : (g : Gist) → matches g g ≡ true
unfolding matches
matches_self g = ground (arith, same_text_refl g.normal)

matches_words :
    (g h : Gist)
    → is_empty g.words ≡ false
    → is_empty h.words ≡ false
    → same_set g.words h.words ≡ true
    → matches g h ≡ true
unfolding matches
matches_words g h e f s = ground arith

any_member :
    (p : Text → Bool) (t : Text) (texts : List Text)
    → is_in t texts ≡ true
    → p t ≡ true
    → any p texts ≡ true
any_member p t [] i h = absurd (ground arith)
any_member p t (x ∷ texts) i h = ground (arith, any_member p t texts, same_text_eq t x)

pub any_none :
    (p : Text → Bool) (texts : List Text) → any p texts ≡ false → All (λ t. p t ≡ false) texts
any_none p [] h = tt
any_none p (x ∷ texts) h = ground (arith, any_none p texts)

is_empty_members :
    (ws vs : List Text)
    → ((w : Text) → is_in w ws ≡ is_in w vs)
    → is_empty ws ≡ false
    → is_empty vs ≡ false
is_empty_members [] vs h e = absurd (ground arith)
is_empty_members (w ∷ ws) [] h e = ground (arith, h w, same_text_refl w)
is_empty_members (w ∷ ws) (v ∷ vs) h e = refl

module _ (u : Unicode) where
  words-Distinct : (q : Text) → Distinct (gist u q).words
  unfolding gist meaningful_tokens
  words-Distinct q =
      distinct-Distinct (keep (λ w. not (is_in w duplicate_stopwords)) (plain_words u q))

  -- A question is a duplicate of another exactly when the other is one of it.
  pub is_duplicate_sym : (q e : Text) → is_duplicate u q (e ∷ []) ≡ is_duplicate u e (q ∷ [])
  unfolding is_duplicate
  is_duplicate_sym q e =
      ap (λ b. if b then true else false)
        (matches_swap (gist u q) (gist u e) (words-Distinct q) (words-Distinct e))

  matches_reworded :
      (q e : Text)
      → is_empty (meaningful_tokens u q) ≡ false
      → ((w : Text) → is_in w (meaningful_tokens u q) ≡ is_in w (meaningful_tokens u e))
      → matches (gist u q) (gist u e) ≡ true
  unfolding gist
  matches_reworded q e f h =
      matches_words (gist u q) (gist u e) f (is_empty_members (meaningful_tokens u q) _ h f) (
        ground (
          arith,
          subset_of (meaningful_tokens u q) _ (λ w i. sym (h w) ∙ i),
          subset_of (meaningful_tokens u e) _ (λ w i. h w ∙ i),
        ))

  -- A question is refused when the corpus holds the same question, and also when it holds one with
  -- the same meaningful words, in any order and however often, if there are such words at all.
  pub is_duplicate_reworded :
      (q e : Text) (corpus : List Text)
      → is_in e corpus ≡ true
      → (q ≡ e)
        ⊎ ((is_empty (meaningful_tokens u q) ≡ false)
            × ((w : Text) → is_in w (meaningful_tokens u q) ≡ is_in w (meaningful_tokens u e)))
      → is_duplicate u q corpus ≡ true
  unfolding is_duplicate
  is_duplicate_reworded q e corpus i (inl s) =
      any_member (λ t. matches (gist u q) (gist u t)) e corpus i
        (subst (λ t. matches (gist u q) (gist u t) ≡ true) s (matches_self (gist u q)))
  is_duplicate_reworded q e corpus i (inr s) =
      any_member (λ t. matches (gist u q) (gist u t)) e corpus i (matches_reworded q e s.0 s.1)
