-- ===== src/Text.antt =====
-- Texts as lists of code points, with what the source uses of Python's `str` and `re`. The Unicode
-- tables (`str.lower`, white space, digits, the characters of a word) are a parameter.
pub mod Laws
use Prim.Native.Char.{code}
use Prim.Native.String.{String}
use over_under.Prelude.{
  ℕ, suc, zero, ◌+◌, ◌<◌, ◌≡◌, Bool, true, false, not, ◌&&◌, ◌||◌, List, [], ◌∷◌, ◌++◌, ltb, leb,
  ◌==◌, if◌then◌else◌, any, keep, length,
}

abbrev pub Text : Type 0
Text = List ℕ

-- The code points of a literal.
abbrev pub codes : String → Text
codes String.[] = []
codes (String.◌∷◌ c s) = code c ∷ codes s

pub record Unicode : Type 0 where
  pub lower : Text → Text
  pub is_space : ℕ → Bool
  pub is_digit : ℕ → Bool
  pub is_word : ℕ → Bool

-- `a == b`
abbrev pub same_text : Text → Text → Bool
same_text [] [] = true
same_text [] (y ∷ ys) = false
same_text (x ∷ xs) [] = false
same_text (x ∷ xs) (y ∷ ys) = (x == y) && same_text xs ys

-- `t in texts`
abbrev pub is_in : Text → List Text → Bool
is_in t texts = any (same_text t) texts

-- The bytes of a code point in UTF-8.
abbrev pub utf8_width : ℕ → ℕ
utf8_width c = if ltb c 0x80 then 1 else if ltb c 0x800 then 2 else if ltb c 0x10000 then 3 else 4

-- `len(t.encode("utf-8"))`
abbrev pub utf8_length : Text → ℕ
utf8_length [] = 0
utf8_length (c ∷ t) = utf8_width c + utf8_length t

-- `t.endswith(c)`
abbrev pub ends_with : ℕ → Text → Bool
ends_with c [] = false
ends_with c (x ∷ []) = x == c
ends_with c (x ∷ y ∷ t) = ends_with c (y ∷ t)

abbrev pub starts_with : Text → Text → Bool
starts_with [] t = true
starts_with (x ∷ p) [] = false
starts_with (x ∷ p) (y ∷ t) = (x == y) && starts_with p t

module _ (u : Unicode) where
  abbrev pub lstrip : Text → Text
  lstrip [] = []
  lstrip (c ∷ t) = if u.is_space c then lstrip t else c ∷ t

  -- A character in front of what is left of the text behind it.
  abbrev pub keep_head : ℕ → Text → Text
  keep_head c [] = if u.is_space c then [] else c ∷ []
  keep_head c (x ∷ t) = c ∷ x ∷ t

  abbrev pub rstrip : Text → Text
  rstrip [] = []
  rstrip (c ∷ t) = keep_head c (rstrip t)

  -- `t.strip()`
  abbrev pub strip : Text → Text
  strip t = rstrip (lstrip t)

  -- Whether the character at the head, if any, is one of a word.
  abbrev pub word_head : Text → Bool
  word_head [] = false
  word_head (c ∷ t) = u.is_word c

  abbrev pub drop_prefix : Text → Text → Text
  drop_prefix [] t = t
  drop_prefix (x ∷ p) [] = []
  drop_prefix (x ∷ p) (y ∷ t) = drop_prefix p t

  -- `\bword\b` at the head; the words that are looked for begin and end in characters of a word.
  abbrev pub word_here : Text → Text → Bool
  word_here word t = starts_with word t && not (word_head (drop_prefix word t))

  -- `re.search` of `\b(w1|w2|...)\b`; the flag says whether the character before is one of a word.
  abbrev pub finds_word : List Text → Bool → Text → Bool
  finds_word words inside [] = false
  finds_word words inside (c ∷ t) =
      (not inside && any (λ w. word_here w (c ∷ t)) words) || finds_word words (u.is_word c) t

abbrev pub is_plain : ℕ → Bool
is_plain c = (leb b'a' c && leb c b'z') || (leb b'0' c && leb c b'9')

abbrev push_word : Text → List Text → List Text
push_word [] words = words
push_word (c ∷ w) words = (c ∷ w) ∷ words

-- The maximal runs of `[a-z0-9]`, with the run that has been read so far.
abbrev pub runs : Text → Text → List Text
runs acc [] = push_word acc []
runs acc (c ∷ t) = elim (is_plain c) [
  | true ↦ runs (acc ++ c ∷ []) t
  | false ↦ push_word acc (runs [] t)
]

-- `" ".join(words)`
abbrev pub join : List Text → Text
join [] = []
join (w ∷ []) = w
join (w ∷ v ∷ ws) = w ++ b' ' ∷ join (v ∷ ws)

-- `set(words)`, in the order of the last occurrences.
abbrev pub distinct : List Text → List Text
distinct [] = []
distinct (w ∷ ws) = if is_in w ws then distinct ws else w ∷ distinct ws

abbrev pub subset : List Text → List Text → Bool
subset [] vs = true
subset (w ∷ ws) vs = is_in w vs && subset ws vs

-- `ws == vs` on sets.
abbrev pub same_set : List Text → List Text → Bool
same_set ws vs = subset ws vs && subset vs ws
