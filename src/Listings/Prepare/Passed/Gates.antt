-- ===== src/Listings/Prepare/Passed/Gates.antt =====
-- What the gates of the prepare route let through (backend/app/markets/listing_gates.py, and
-- `listing_prepare` of backend/app/markets/listing.py).
use over_under.Prelude.{
  ℕ, ◌+◌, ◌-◌, ◌≤◌, ◌<◌, ◌≡◌, refl, inl, inr, Bool, true, false, not, ◌&&◌, Option, none, some,
  List, [], ◌∷◌, ltb, leb, ◌==◌, arith, All, any, keep, length, Bool-cases,
}
use over_under.Text.{Text, Unicode, strip, utf8_length, ends_with, finds_word}
use over_under.Market.{Gate}
use over_under.Db.{Db}
use over_under.Listings.Gates.{
  Bounds, or_else, refuse_if, banned_words, max_seed_usdc, check_question, check_criteria,
  check_close_time, check_seed, validate_listing, check_pending, gist, matches, is_duplicate,
}
use over_under.Listings.Review.{open_questions, is_prepared}
use over_under.Listings.Prepare.{PrepareIn, pending_count, prepare_gate}

or_else-none : (a b : Option Gate) → or_else a b ≡ none → (a ≡ none) × (b ≡ none)
or_else-none none b h = (refl, h)
or_else-none (some why) b h = absurd (ground (arith, h))

refuse_if-none : (b : Bool) (why : Gate) → refuse_if b why ≡ none → b ≡ false
refuse_if-none false why h = refl
refuse_if-none true why h = absurd (ground (arith, h))

-- A question that reads like none of the others.
abbrev pub Unlike : Unicode → Text → List Text → Type 0
Unlike u question others = All (λ q. matches (gist u question) (gist u q) ≡ false) others

any-false : (p : Text → Bool) (ts : List Text) → any p ts ≡ false → All (λ t. p t ≡ false) ts
any-false p [] h = tt
any-false p (t ∷ ts) h = elim (Bool-cases (p t)) [
  | inl e ↦ absurd (ground (arith, e, h))
  | inr e ↦ (e, any-false p ts (ground (arith, e, h)))
]

is_duplicate-false :
    (u : Unicode) (question : Text) (others : List Text)
    → is_duplicate u question others ≡ false
    → Unlike u question others
unfolding is_duplicate
is_duplicate-false u question others h = any-false _ others h

module _ (u : Unicode) (question : Text) where
  -- Long enough and not too long, a question, and without the banned words.
  pub record IsQuestion : Type 0 where
    pub longer : 10 ≤ utf8_length question
    pub shorter : utf8_length question ≤ 256
    pub asks : ends_with b'?' question ≡ true
    pub objective : finds_word u banned_words false (u.lower question) ≡ false

  check_question-none : check_question u question ≡ none → IsQuestion
  unfolding check_question
  check_question-none h =
      let a = or_else-none (refuse_if (ltb (utf8_length question) 10) Gate.question_short) _ h in
      let b = or_else-none (refuse_if (ltb 256 (utf8_length question)) Gate.question_long) _ a.1 in
      let c = or_else-none (refuse_if (not (ends_with b'?' question)) Gate.not_a_question) _ b.1 in
      let long = refuse_if-none (ltb (utf8_length question) 10) _ a.0 in
      let short = refuse_if-none (ltb 256 (utf8_length question)) _ b.0 in
      record {
        longer = ground (arith, long);
        shorter = ground (arith, short);
        asks = not-false (ends_with b'?' question) (refuse_if-none _ _ c.0);
        objective = refuse_if-none _ _ c.1;
      }
    where
      not-false : (b : Bool) → not b ≡ false → b ≡ true
      not-false true h = refl
      not-false false h = absurd (ground (arith, h))

within_lem :
    (low high n : ℕ) (under over : Gate)
    → or_else (refuse_if (ltb n low) under) (refuse_if (ltb high n) over) ≡ none
    → (low ≤ n) × (n ≤ high)
within_lem low high n under over h =
    let a = or_else-none (refuse_if (ltb n low) under) _ h in
    let least = refuse_if-none (ltb n low) _ a.0 in
    let most = refuse_if-none (ltb high n) _ a.1 in (ground (arith, least), ground (arith, most))

module _ (u : Unicode) (db : Db) (body : PrepareIn) (creator : ℕ) (bounds : Bounds) (now : ℕ) where
  -- Every gate of the route: the stripped question and criteria, the closing time, the seed, fewer than
  -- five prepared listings of the creator's within a day, and no open question that it repeats.
  pub record Passes : Type 0 where
    pub question_ok : IsQuestion u (strip u body.question)
    pub criteria_ok :
        (20 ≤ length (strip u body.resolution_criteria))
        × (length (strip u body.resolution_criteria) ≤ 2000)
    pub close_ok :
        (now + bounds.min_lead_seconds ≤ body.close_time)
        × (body.close_time ≤ now + bounds.max_horizon_seconds)
    pub seed_ok : (bounds.min_seed_usdc ≤ body.seed_usdc) × (body.seed_usdc ≤ max_seed_usdc)
    pub few_pending :
        length (
          keep
            (λ l. l.creator == creator && is_prepared l && leb (now - 86_400) l.created_at)
            db.listings)
        < 5
    pub no_repeat :
        Unlike u (strip u body.question) (open_questions db.markets db.listings now none)

  check_pending-none : (n : ℕ) → check_pending n ≡ none → n < 5
  unfolding check_pending
  check_pending-none n h = let few = refuse_if-none (leb 5 n) _ h in ground (arith, few)

  pub prepare_gate-none : prepare_gate u db body creator bounds now ≡ none → Passes
  unfolding prepare_gate validate_listing check_criteria check_close_time check_seed pending_count
  prepare_gate-none h =
      let valid =
        or_else-none
          (validate_listing u (strip u body.question) (strip u body.resolution_criteria)
            body.close_time body.seed_usdc bounds now)
          _ h in
      let pending =
        or_else-none (check_pending (pending_count db.listings creator now)) _ valid.1 in
      let asked = or_else-none (check_question u (strip u body.question)) _ valid.0 in
      let told = or_else-none (check_criteria (strip u body.resolution_criteria)) _ asked.1 in
      let timed = or_else-none (check_close_time body.close_time bounds now) _ told.1 in
      record {
        question_ok = check_question-none u (strip u body.question) asked.0;
        criteria_ok = within_lem 20 2000 _ Gate.criteria_short Gate.criteria_long told.0;
        close_ok = within_lem _ _ body.close_time Gate.close_early Gate.close_late timed.0;
        seed_ok = within_lem _ _ body.seed_usdc Gate.seed_low Gate.seed_high timed.1;
        few_pending = check_pending-none (pending_count db.listings creator now) pending.0;
        no_repeat = is_duplicate-false u _ _ (refuse_if-none _ Gate.similar pending.1);
      }
