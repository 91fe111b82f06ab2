-- ===== src/Normalize/Words.antt =====
-- The words that `splitWords` cuts, and their concatenation in PascalCase.
use gombit_forge.Prelude.{
  ℕ, ◌≡◌, refl, Bool, true, false, ◌&&◌, ◌||◌, List, [], ◌∷◌, ◌++◌, arith, all, any, all-append,
  Text,
}
use gombit_forge.Names.{is_upper, is_digit}
use gombit_forge.Normalize.{is_alnum, flush, split_loop, split_words, pascal_case}

abbrev pub is_nonempty {ℓ} : {A : Type ℓ} → List A → Bool
is_nonempty [] = false
is_nonempty (x ∷ xs) = true

abbrev pub is_word : Text → Bool
is_word w = is_nonempty w && all is_alnum w

nonempty-append {ℓ} :
    {A : Type ℓ} (xs ys : List A) → is_nonempty (xs ++ ys) ≡ (is_nonempty xs || is_nonempty ys)
nonempty-append [] ys = refl
nonempty-append (x ∷ xs) ys = refl

flush-all_words :
    (words : List Text) (cur : Text)
    → all is_word words ≡ true
    → all is_alnum cur ≡ true
    → all is_word (flush words cur) ≡ true
unfolding flush
flush-all_words words [] h k = h
flush-all_words words (c ∷ cs) h k = ground (arith, all-append is_word words ((c ∷ cs) ∷ []))

split_loop-all_words :
    (s : Text) (words : List Text) (cur : Text) (prev : ℕ)
    → all is_word words ≡ true
    → all is_alnum cur ≡ true
    → all is_word (split_loop s words cur prev) ≡ true
unfolding split_loop
split_loop-all_words [] words cur prev h k = flush-all_words words cur h k
split_loop-all_words (c ∷ s) words cur prev h k = ground (
  arith,
  flush-all_words words cur h k,
  all-append is_alnum cur (c ∷ []),
  split_loop-all_words s (flush words cur) (c ∷ []) c,
  split_loop-all_words s words (cur ++ c ∷ []) c h,
  split_loop-all_words s (flush words cur) [] 0,
)

pub split_words-all_words : (s : Text) → all is_word (split_words s) ≡ true
unfolding split_words
split_words-all_words s = split_loop-all_words s [] [] 0 refl refl

flush-nonempty :
    (words : List Text) (cur : Text)
    → is_nonempty (flush words cur) ≡ (is_nonempty words || is_nonempty cur)
unfolding flush
flush-nonempty words [] = ground arith
flush-nonempty words (c ∷ cs) = nonempty-append words ((c ∷ cs) ∷ [])

split_loop-nonempty :
    (s : Text) (words : List Text) (cur : Text) (prev : ℕ)
    → is_nonempty (split_loop s words cur prev)
      ≡ (is_nonempty words || is_nonempty cur || any is_alnum s)
unfolding split_loop
split_loop-nonempty [] words cur prev = ground (arith, flush-nonempty words cur)
split_loop-nonempty (c ∷ s) words cur prev = ground (
  arith,
  flush-nonempty words cur,
  nonempty-append cur (c ∷ []),
  split_loop-nonempty s (flush words cur) (c ∷ []) c,
  split_loop-nonempty s words (cur ++ c ∷ []) c,
  split_loop-nonempty s (flush words cur) [] 0,
)

-- There is a word exactly when there is a letter or a digit.
pub split_words-nonempty : (s : Text) → is_nonempty (split_words s) ≡ any is_alnum s
unfolding split_words
split_words-nonempty s = split_loop-nonempty s [] [] 0

pub pascal_case-alnum :
    (words : List Text) → all is_word words ≡ true → all is_alnum (pascal_case words) ≡ true
unfolding pascal_case
pascal_case-alnum [] h = refl
pascal_case-alnum ([] ∷ words) h = cc
pascal_case-alnum ((c ∷ cs) ∷ words) h =
    ground (arith, all-append is_alnum cs (pascal_case words), pascal_case-alnum words)

abbrev pub starts_word : Text → Bool
starts_word [] = false
starts_word (c ∷ s) = is_upper c || is_digit c

pub pascal_case-starts_word :
    (w : Text) (words : List Text)
    → all is_word (w ∷ words) ≡ true
    → starts_word (pascal_case (w ∷ words)) ≡ true
unfolding pascal_case
pascal_case-starts_word [] words h = cc
pascal_case-starts_word (c ∷ cs) words h = ground arith
