-- ===== src/Names/Storage.antt =====
-- The grammar that `IsStorageName` and `IsSlug` share, up to the separator: words of lower-case
-- letters and digits with single separators between them, a letter first, 63 bytes at most.
use mathlib.Core.Bool.{not}
use gombit_forge.Prelude.{
  ℕ, ◌+◌, ◌<◌, ◌≡◌, refl, Bool, true, false, ◌&&◌, ◌||◌, List, [], ◌∷◌, arith, ◌==◌, nat_eq,
  text_eq, text_beq, all, length, leb, Text, if◌then◌else◌,
}
use gombit_forge.Names.{
  is_lower, is_digit, has_prefix, has_suffix, contains_double, byte_len, storage_runes, slug_runes,
  is_storage_name, is_slug,
}

abbrev pub push : ℕ → List Text → List Text
push c [] = (c ∷ []) ∷ []
push c (p ∷ ps) = (c ∷ p) ∷ ps

-- strings.Split at a separator of one character
unfoldable pub split : ℕ → Text → List Text
split sep [] = [] ∷ []
split sep (c ∷ s) = let rest = split sep s in if c == sep then [] ∷ rest else push c rest

abbrev pub word_char : ℕ → Bool
word_char c = is_lower c || is_digit c

abbrev pub is_nonempty : Text → Bool
is_nonempty [] = false
is_nonempty (c ∷ s) = true

abbrev pub is_word : Text → Bool
is_word w = is_nonempty w && all word_char w

abbrev starts_lower : Text → Bool
starts_lower [] = false
starts_lower (c ∷ s) = is_lower c

abbrev pub separated_words : ℕ → Text → Bool
separated_words sep s = starts_lower s && all is_word (split sep s) && leb (length s) 63

abbrev head_nonempty : List Text → Bool
head_nonempty [] = false
head_nonempty (p ∷ ps) = is_nonempty p

abbrev tail_nonempty : List Text → Bool
tail_nonempty [] = true
tail_nonempty (p ∷ ps) = all is_nonempty ps

head_nonempty-push : (c : ℕ) (ps : List Text) → head_nonempty (push c ps) ≡ true
head_nonempty-push c [] = refl
head_nonempty-push c (p ∷ ps) = refl

tail_nonempty-push : (c : ℕ) (ps : List Text) → tail_nonempty (push c ps) ≡ tail_nonempty ps
tail_nonempty-push c [] = refl
tail_nonempty-push c (p ∷ ps) = refl

all_nonempty :
    (ps : List Text) → 0 < length ps → all is_nonempty ps ≡ (head_nonempty ps && tail_nonempty ps)
all_nonempty [] h = elim h [ ]
all_nonempty (p ∷ ps) h = refl

pub all_chars-push :
    (p : ℕ → Bool) (c : ℕ) (ps : List Text) → all (all p) (push c ps) ≡ (p c && all (all p) ps)
all_chars-push p c [] = ground arith
all_chars-push p c (q ∷ ps) = ground arith

all-is_word : (ps : List Text) → all is_word ps ≡ (all is_nonempty ps && all (all word_char) ps)
all-is_word [] = refl
all-is_word (p ∷ ps) = ground (arith, all-is_word ps)

length-push : (c : ℕ) (ps : List Text) → 0 < length (push c ps)
length-push c [] = omega arith
length-push c (p ∷ ps) = omega arith

module _ (sep : ℕ) where
  length-split : (s : Text) → 0 < length (split sep s)
  unfolding split
  length-split [] = omega arith
  length-split (c ∷ s) = ground (arith, length-push c (split sep s))

  head_nonempty-split :
      (s : Text) → head_nonempty (split sep s) ≡ (is_nonempty s && not (has_prefix sep s))
  unfolding split
  head_nonempty-split [] = refl
  head_nonempty-split (c ∷ s) = ground (arith, head_nonempty-push c (split sep s))

  tail_nonempty-cons :
      (c : ℕ) (s : Text)
      → tail_nonempty (split sep (c ∷ s))
        ≡ (if c == sep then all is_nonempty (split sep s) else tail_nonempty (split sep s))
  unfolding split
  tail_nonempty-cons c s = ground (arith, tail_nonempty-push c (split sep s))

  tail_nonempty-split :
      (s : Text)
      → tail_nonempty (split sep s) ≡ (not (has_suffix sep s) && not (contains_double sep s))
  tail_nonempty-split [] = unfold split in refl
  tail_nonempty-split (c ∷ []) = rw tail_nonempty-cons (unfold split in ground arith)
  tail_nonempty-split (c ∷ d ∷ s) = rw tail_nonempty-cons (
      ground (
        arith,
        all_nonempty (split sep (d ∷ s)) (length-split (d ∷ s)),
        head_nonempty-split (d ∷ s),
        tail_nonempty-split (d ∷ s),
      ))

  all_nonempty-split :
      (s : Text)
      → all is_nonempty (split sep s) ≡ (
          is_nonempty s
          && not (has_prefix sep s)
          && not (has_suffix sep s)
          && not (contains_double sep s))
  all_nonempty-split s = ground (
    arith,
    all_nonempty (split sep s) (length-split s),
    head_nonempty-split s,
    tail_nonempty-split s,
  )

  all_chars-split :
      (p : ℕ → Bool) (s : Text) → all (all p) (split sep s) ≡ all (λ c. c == sep || p c) s
  unfolding split
  all_chars-split p [] = refl
  all_chars-split p (c ∷ s) = ground (arith, all_chars-push p c (split sep s), all_chars-split p s)

  separated_words_tests :
      (c : ℕ) (s : Text)
      → separated_words sep (c ∷ s) ≡ (
          is_lower c
          && all (λ d. d == sep || word_char d) (c ∷ s)
          && not (has_suffix sep (c ∷ s))
          && not (contains_double sep (c ∷ s))
          && leb (length (c ∷ s)) 63
          && not (c == sep))
  separated_words_tests c s =
      rw all-is_word (rw all_nonempty-split (rw all_chars-split (ground arith)))

  byte_len-ascii :
      (s : Text) → sep < 128 → all (λ c. c == sep || word_char c) s ≡ true → byte_len s ≡ length s
  byte_len-ascii [] small h = refl
  byte_len-ascii (c ∷ s) small h = ground (arith, byte_len-ascii s small)

storage_runes-later :
    (i : ℕ) (s : Text) → 0 < i → storage_runes i s ≡ all (λ c. c == b'_' || word_char c) s
unfolding storage_runes
storage_runes-later i [] h = refl
storage_runes-later i (c ∷ s) h = ground (arith, storage_runes-later (i + 1) s)

storage_runes-start :
    (c : ℕ) (s : Text)
    → storage_runes 0 (c ∷ s) ≡ ((is_lower c || c == b'_') && all (λ d. d == b'_' || word_char d) s)
unfolding storage_runes
storage_runes-start c s = ground (arith, storage_runes-later 1 s)

-- `IsStorageName` accepts exactly the texts of at most 63 characters whose parts between
-- underscores are nonempty words of lower-case ASCII letters and digits, the first character
-- being a letter.
pub is_storage_name-eq-separated_words : (s : Text) → is_storage_name s ≡ separated_words b'_' s
unfolding is_storage_name text_beq
is_storage_name-eq-separated_words [] = refl
is_storage_name-eq-separated_words (c ∷ s) = ground (
  arith,
  separated_words_tests b'_' c s,
  storage_runes-start c s,
  byte_len-ascii b'_' (c ∷ s) (omega arith),
)

slug_runes-later :
    (i : ℕ) (s : Text) → 0 < i → slug_runes i s ≡ all (λ c. c == b'-' || word_char c) s
unfolding slug_runes
slug_runes-later i [] h = refl
slug_runes-later i (c ∷ s) h = ground (arith, slug_runes-later (i + 1) s)

slug_runes-start :
    (c : ℕ) (s : Text)
    → slug_runes 0 (c ∷ s) ≡ ((is_lower c || c == b'-') && all (λ d. d == b'-' || word_char d) s)
unfolding slug_runes
slug_runes-start c s = ground (arith, slug_runes-later 1 s)

-- `IsSlug` accepts exactly the texts of at most 63 characters whose parts between hyphens are
-- nonempty words of lower-case ASCII letters and digits, the first character being a letter.
pub is_slug-eq-separated_words : (s : Text) → is_slug s ≡ separated_words b'-' s
unfolding is_slug text_beq
is_slug-eq-separated_words [] = refl
is_slug-eq-separated_words (c ∷ s) = ground (
  arith,
  separated_words_tests b'-' c s,
  slug_runes-start c s,
  byte_len-ascii b'-' (c ∷ s) (omega arith),
)
