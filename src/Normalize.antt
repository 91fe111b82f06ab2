-- ===== src/Normalize.antt =====
-- internal/spec/normalize.go: from a label, a list of runes, to an exported Go identifier.
-- `unicode.IsLetter` is the parameter `is_letter`.
pub mod Words
pub mod Totality
pub mod Fixpoint
use gombit_forge.Prelude.{
  ℕ, ◌+◌, ◌-◌, Bool, true, false, ◌&&◌, ◌||◌, Option, none, some, List, [], ◌∷◌, ◌++◌, map, ltb,
  leb, between, if◌then◌else◌, ◌==◌, nat_eq, text_eq, Text, codes,
}
use gombit_forge.Names.{is_upper, is_lower, is_digit, is_exported_go_ident}

-- The cases of the switch of `foldToASCII` over the runes from U+00C0 on, by code point.
fold_latin1 : ℕ → Text
fold_latin1 r =
    if between 0xC0 0xC5 r
    then codes "A"
    else if r == 0xC6
    then codes "AE"
    else if r == 0xC7
    then codes "C"
    else if between 0xC8 0xCB r
    then codes "E"
    else if between 0xCC 0xCF r
    then codes "I"
    else if r == 0xD0
    then codes "D"
    else if r == 0xD1
    then codes "N"
    else if between 0xD2 0xD6 r || r == 0xD8
    then codes "O"
    else if between 0xD9 0xDC r
    then codes "U"
    else if r == 0xDD
    then codes "Y"
    else if r == 0xDE
    then codes "TH"
    else if r == 0xDF
    then codes "ss"
    else if between 0xE0 0xE5 r
    then codes "a"
    else if r == 0xE6
    then codes "ae"
    else if r == 0xE7
    then codes "c"
    else if between 0xE8 0xEB r
    then codes "e"
    else if between 0xEC 0xEF r
    then codes "i"
    else if r == 0xF0
    then codes "d"
    else if r == 0xF1
    then codes "n"
    else if between 0xF2 0xF6 r || r == 0xF8
    then codes "o"
    else if between 0xF9 0xFC r
    then codes "u"
    else if r == 0xFD || r == 0xFF
    then codes "y"
    else if r == 0xFE
    then codes "th"
    else codes " "

unfoldable pub fold_to_ascii : ℕ → Text
unfolding fold_latin1
fold_to_ascii r = if ltb r 0x80 then r ∷ [] else fold_latin1 r

-- The text that the loop of `Normalize` writes into `folded`.
unfoldable pub fold_label : Text → Text
unfolding fold_to_ascii
fold_label [] = []
fold_label (r ∷ rest) = fold_to_ascii r ++ fold_label rest

abbrev pub is_alnum : ℕ → Bool
is_alnum c = is_upper c || is_lower c || is_digit c

-- flush, for the words found so far and the current word
flush : List Text → Text → List Text
flush words [] = words
flush words (c ∷ cs) = words ++ (c ∷ cs) ∷ []

-- The loop of `splitWords`, with its `words`, `cur` and `prev`.
split_loop : Text → List Text → Text → ℕ → List Text
unfolding flush
split_loop [] words cur prev = flush words cur
split_loop (c ∷ rest) words cur prev = elim (is_alnum c) [
  | true ↦ elim (is_lower prev && is_upper c) [
    | true ↦ split_loop rest (flush words cur) (c ∷ []) c
    | false ↦ split_loop rest words (cur ++ c ∷ []) c
  ]
  | false ↦ split_loop rest (flush words cur) [] 0
]

unfoldable pub split_words : Text → List Text
unfolding split_loop
split_words s = split_loop s [] [] 0

abbrev pub to_upper : ℕ → ℕ
to_upper c = if is_lower c then c - 32 else c

unfoldable pub upper_first_ascii : Text → Text
upper_first_ascii [] = []
upper_first_ascii (c ∷ cs) = to_upper c ∷ cs

-- b.WriteString(upperFirstASCII(w)) for every word
unfoldable pub pascal_case : List Text → Text
unfolding upper_first_ascii
pascal_case [] = []
pascal_case (w ∷ words) = upper_first_ascii w ++ pascal_case words

digit_word : ℕ → Text
digit_word d =
    if d == 0
    then codes "Zero"
    else if d == 1
    then codes "One"
    else if d == 2
    then codes "Two"
    else if d == 3
    then codes "Three"
    else if d == 4
    then codes "Four"
    else if d == 5
    then codes "Five"
    else if d == 6
    then codes "Six"
    else if d == 7
    then codes "Seven"
    else if d == 8
    then codes "Eight"
    else codes "Nine"

-- The leading run of digits is spelled out; what follows it stays.
unfoldable pub spell_leading : Text → Text
unfolding digit_word
spell_leading [] = []
spell_leading (c ∷ cs) = if is_digit c then digit_word (c - b'0') ++ spell_leading cs else c ∷ cs

-- The check at the end of `Normalize`.
pub checked : Text → Option Text
unfolding is_exported_go_ident
checked out = if is_exported_go_ident out then some out else none

from_words : List Text → Option Text
unfolding checked pascal_case spell_leading
from_words [] = none
from_words (w ∷ words) = checked (spell_leading (pascal_case (w ∷ words)))

module _ (is_letter : ℕ → Bool) where
  -- `droppedLetter` after the loop
  unfoldable pub dropped_letter : Text → Bool
  unfolding fold_to_ascii
  dropped_letter [] = false
  dropped_letter (r ∷ rest) =
      (leb 0x80 r && fold_to_ascii r == codes " " && is_letter r) || dropped_letter rest

  unfoldable pub normalize : Text → Option Text
  unfolding dropped_letter from_words split_words fold_label
  normalize label =
      if dropped_letter label then none else from_words (split_words (fold_label label))
