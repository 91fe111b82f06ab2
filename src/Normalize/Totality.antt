-- ===== src/Normalize/Totality.antt =====
-- When `Normalize` returns a name: the last check of the source never fails.
use mathlib.Core.Bool.{not}
use gombit_forge.Prelude.{
  ℕ, ◌-◌, ◌≡◌, refl, ap, ◌∙◌, Bool, true, false, ◌&&◌, some, List, [], ◌∷◌, ◌++◌, arith, all, any,
  Text, is_some, inl, inr, Bool-cases,
}
use gombit_forge.Names.{is_upper, is_digit}
use gombit_forge.Names.Ident.{ident_char, exported_shape, is_exported_go_ident_shape}
use gombit_forge.Normalize.{
  is_alnum, digit_word, spell_leading, pascal_case, split_words, fold_label, dropped_letter,
  checked, from_words, normalize,
}
use gombit_forge.Normalize.Words.{
  is_nonempty, is_word, starts_word, split_words-all_words, split_words-nonempty, pascal_case-alnum,
  pascal_case-starts_word,
}

-- An upper-case letter, then letters and digits.
abbrev pub pascal_shape : Text → Bool
pascal_shape [] = false
pascal_shape (c ∷ s) = is_upper c && all is_alnum s

all_ident_of_alnum : (s : Text) → all is_alnum s ≡ true → all ident_char s ≡ true
all_ident_of_alnum [] h = refl
all_ident_of_alnum (c ∷ s) h = ground (arith, all_ident_of_alnum s)

exported_of_pascal : (s : Text) → pascal_shape s ≡ true → exported_shape s ≡ true
exported_of_pascal [] h = cc
exported_of_pascal (c ∷ s) h = ground (arith, all_ident_of_alnum s)

pub all-pascal : (s : Text) → pascal_shape s ≡ true → all is_alnum s ≡ true
all-pascal [] h = refl
all-pascal (c ∷ s) h = ground arith

digit_word-shape : (d : ℕ) (t : Text) → pascal_shape (digit_word d ++ t) ≡ all is_alnum t
unfolding digit_word
digit_word-shape d t = ground arith

spell_leading-alnum : (s : Text) → all is_alnum s ≡ true → all is_alnum (spell_leading s) ≡ true
unfolding spell_leading
spell_leading-alnum [] h = refl
spell_leading-alnum (c ∷ s) h = elim (Bool-cases (is_digit c)) [
  | inl digit ↦ rw digit (
      all-pascal (digit_word (c - 48) ++ spell_leading s)
        (digit_word-shape (c - 48) (spell_leading s) ∙ spell_leading-alnum s (ground arith)))
  | inr other ↦ rw other h
]

pub spell_leading-shape :
    (s : Text)
    → all is_alnum s ≡ true
    → starts_word s ≡ true
    → pascal_shape (spell_leading s) ≡ true
unfolding spell_leading
spell_leading-shape [] h k = cc
spell_leading-shape (c ∷ s) h k = elim (Bool-cases (is_digit c)) [
  | inl digit ↦
      rw digit (digit_word-shape (c - 48) (spell_leading s) ∙ spell_leading-alnum s (ground arith))
  | inr other ↦ rw other (ground arith)
]

pub checked-pascal : (out : Text) → pascal_shape out ≡ true → checked out ≡ some out
unfolding checked
checked-pascal out h = rw is_exported_go_ident_shape (rw (exported_of_pascal out h))

pub identifier-shape :
    (w : Text) (words : List Text)
    → all is_word (w ∷ words) ≡ true
    → pascal_shape (spell_leading (pascal_case (w ∷ words))) ≡ true
identifier-shape w words h =
    spell_leading-shape (pascal_case (w ∷ words)) (pascal_case-alnum (w ∷ words) h)
      (pascal_case-starts_word w words h)

from_words-some :
    (words : List Text) → all is_word words ≡ true → is_some (from_words words) ≡ is_nonempty words
unfolding from_words
from_words-some [] h = refl
from_words-some (w ∷ words) h =
    ap is_some
      (checked-pascal (spell_leading (pascal_case (w ∷ words))) (identifier-shape w words h))

module _ (is_letter : ℕ → Bool) where
  -- `Normalize` returns a name exactly when no letter was dropped and the folded label has an
  -- ASCII letter or digit.
  pub is_some-normalize :
      (label : Text)
      → is_some (normalize is_letter label)
        ≡ (not (dropped_letter is_letter label) && any is_alnum (fold_label label))
  unfolding normalize
  is_some-normalize label = ground (
    arith,
    from_words-some (split_words (fold_label label)) (split_words-all_words (fold_label label)),
    split_words-nonempty (fold_label label),
  )
