-- ===== src/Listings/Gates.antt =====
-- The off-chain gates for user listings (backend/app/markets/listing_gates.py). A gate answers with the
-- first reason against the listing; `none` passes.
use over_under.Prelude.{
  ℕ, ◌+◌, ◌-◌, ◌*◌, Bool, true, false, not, ◌&&◌, ◌||◌, Option, none, some, List, [], ◌∷◌, ltb, leb,
  ◌==◌, if◌then◌else◌, any, keep, length,
}
use over_under.Text.{
  Text, Unicode, codes, same_text, is_in, utf8_length, ends_with, strip, finds_word, runs, join,
  distinct, same_set,
}
use over_under.Market.{Gate}

pub record Bounds : Type 0 where
  pub min_seed_usdc : ℕ
  pub min_lead_seconds : ℕ
  pub max_horizon_seconds : ℕ

-- The second gate is tried when the first passes.
abbrev pub or_else : Option Gate → Option Gate → Option Gate
or_else none second = second
or_else (some why) second = some why

abbrev pub refuse_if : Bool → Gate → Option Gate
refuse_if b why = if b then some why else none

abbrev pub banned_words : List Text
banned_words =
    codes "feel"
    ∷ codes "feels"
    ∷ codes "should"
    ∷ codes "best"
    ∷ codes "worst"
    ∷ codes "underrated"
    ∷ codes "overrated"
    ∷ codes "deserve"
    ∷ codes "deserves"
    ∷ []

abbrev pub duplicate_stopwords : List Text
duplicate_stopwords =
    codes "will"
    ∷ codes "the"
    ∷ codes "a"
    ∷ codes "an"
    ∷ codes "it"
    ∷ codes "is"
    ∷ codes "be"
    ∷ codes "on"
    ∷ codes "in"
    ∷ codes "at"
    ∷ codes "of"
    ∷ codes "by"
    ∷ codes "to"
    ∷ codes "for"
    ∷ codes "before"
    ∷ codes "after"
    ∷ codes "than"
    ∷ codes "and"
    ∷ codes "or"
    ∷ codes "their"
    ∷ codes "his"
    ∷ codes "her"
    ∷ codes "this"
    ∷ codes "that"
    ∷ codes "game"
    ∷ codes "market"
    ∷ codes "question"
    ∷ []

abbrev pub max_seed_usdc : ℕ
max_seed_usdc = 9_223_372_036_854_775_807

-- The status of the HTTP answer that a gate gives.
abbrev pub gate_status : Gate → ℕ
gate_status Gate.too_many_pending = 429
gate_status Gate.similar = 409
gate_status _ = 400

unfoldable pub check_criteria : Text → Option Gate
check_criteria criteria =
    or_else (refuse_if (ltb (length criteria) 20) Gate.criteria_short)
      (refuse_if (ltb 2000 (length criteria)) Gate.criteria_long)

unfoldable pub check_close_time : ℕ → Bounds → ℕ → Option Gate
check_close_time close_time bounds now =
    or_else (refuse_if (ltb close_time (now + bounds.min_lead_seconds)) Gate.close_early)
      (refuse_if (ltb (now + bounds.max_horizon_seconds) close_time) Gate.close_late)

unfoldable pub check_seed : ℕ → Bounds → Option Gate
check_seed seed_usdc bounds =
    or_else (refuse_if (ltb seed_usdc bounds.min_seed_usdc) Gate.seed_low)
      (refuse_if (ltb max_seed_usdc seed_usdc) Gate.seed_high)

unfoldable pub check_pending : ℕ → Option Gate
check_pending pending = refuse_if (leb 5 pending) Gate.too_many_pending

-- What a question says for the duplicate gate: `normalize`, `meaningful_tokens` and `_numbers`.
pub record Gist : Type 0 where
  pub normal : Text
  pub words : List Text
  pub numbers : List Text

-- `jaccard >= 0.9` on sets: a quotient of two sizes that a question can have is rounded to at least
-- 0.9 just when it is at least nine tenths.
abbrev pub overlap : List Text → List Text → ℕ
overlap ws vs = length (keep (λ w. is_in w vs) ws)

unfoldable pub near : List Text → List Text → Bool
near ws vs = leb (9 * (length ws + length vs - overlap ws vs)) (10 * overlap ws vs)

abbrev pub is_empty : List Text → Bool
is_empty [] = true
is_empty (w ∷ ws) = false

-- One round of the loop of `is_duplicate`.
unfoldable pub matches : Gist → Gist → Bool
unfolding near
matches g h =
    same_text g.normal h.normal
    || not (is_empty g.words || is_empty h.words)
      && (same_set g.words h.words || near g.words h.words && same_set g.numbers h.numbers)

module _ (u : Unicode) where
  unfoldable pub check_question : Text → Option Gate
  check_question question =
      let n = utf8_length question in
      or_else (refuse_if (ltb n 10) Gate.question_short) (
        or_else (refuse_if (ltb 256 n) Gate.question_long) (
          or_else (refuse_if (not (ends_with b'?' question)) Gate.not_a_question)
            (refuse_if (finds_word u banned_words false (u.lower question)) Gate.subjective)))

  -- The words between the characters that `[^a-z0-9]+` matches.
  unfoldable pub plain_words : Text → List Text
  plain_words text = runs [] (u.lower text)

  unfoldable pub normalize : Text → Text
  unfolding plain_words
  normalize text = join (plain_words text)

  unfoldable pub meaningful_tokens : Text → List Text
  unfolding plain_words
  meaningful_tokens text =
      distinct (keep (λ w. not (is_in w duplicate_stopwords)) (plain_words text))

  unfoldable pub gist : Text → Gist
  unfolding normalize meaningful_tokens
  gist text = record {
    normal = normalize text;
    words = meaningful_tokens text;
    numbers = keep (any u.is_digit) (meaningful_tokens text);
  }

  unfoldable pub is_duplicate : Text → List Text → Bool
  unfolding gist matches
  is_duplicate question existing = any (λ q. matches (gist question) (gist q)) existing

  unfoldable pub check_listed_question : Text → List Text → Option Gate
  unfolding check_question is_duplicate
  check_listed_question question open_questions =
      or_else (refuse_if (not (same_text question (strip u question))) Gate.padded) (
        or_else (check_question question)
          (refuse_if (is_duplicate question open_questions) Gate.similar))

  unfoldable pub validate_listing : Text → Text → ℕ → ℕ → Bounds → ℕ → Option Gate
  unfolding check_question check_criteria check_close_time check_seed
  validate_listing question criteria close_time seed_usdc bounds now =
      or_else (check_question question) (
        or_else (check_criteria criteria)
          (or_else (check_close_time close_time bounds now) (check_seed seed_usdc bounds)))

-- The seed is `none` where the caller does not know it.
unfoldable pub prepared_mismatch : Text → ℕ → ℕ → Text → ℕ → Option ℕ → Option Gate
prepared_mismatch prepared_question prepared_close_time prepared_seed question close_time
      seed_usdc =
    or_else (refuse_if (not (same_text question prepared_question)) Gate.question_differs) (
      or_else (refuse_if (not (close_time == prepared_close_time)) Gate.close_time_differs)
        (elim seed_usdc [
          | none ↦ none
          | some seed ↦ refuse_if (not (seed == prepared_seed)) Gate.seed_differs
        ]))
