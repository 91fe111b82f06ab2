-- ===== src/Names/Ident.antt =====
-- What `IsExportedGoIdent` accepts: the keyword test never decides, since a keyword starts lower.
use gombit_forge.Prelude.{
  ℕ, ◌+◌, ◌<◌, ◌≡◌, refl, sym, Bool, true, false, ◌&&◌, ◌||◌, List, [], ◌∷◌, arith, ◌==◌, nat_eq,
  text_eq, text_beq, text_beq_iff, contains, all, inl, inr, Bool-cases, Text,
}
use gombit_forge.Names.{
  is_upper, is_lower, is_digit, go_keywords, is_go_keyword, ident_runes, is_exported_go_ident,
}

abbrev pub ident_char : ℕ → Bool
ident_char c = is_upper c || is_lower c || is_digit c || c == b'_'

-- An upper-case letter, then letters, digits and underscores.
abbrev pub exported_shape : Text → Bool
exported_shape [] = false
exported_shape (c ∷ cs) = is_upper c && all ident_char cs

abbrev starts_lower : Text → Bool
starts_lower [] = false
starts_lower (c ∷ cs) = is_lower c

ident_runes-later : (i : ℕ) (s : Text) → 0 < i → ident_runes i s ≡ all ident_char s
unfolding ident_runes
ident_runes-later i [] h = refl
ident_runes-later i (c ∷ s) h = ground (arith, ident_runes-later (i + 1) s)

ident_runes-start : (c : ℕ) (s : Text) → ident_runes 0 (c ∷ s) ≡ exported_shape (c ∷ s)
unfolding ident_runes
ident_runes-start c s = ground (arith, ident_runes-later 1 s)

all-contains :
    (p : Text → Bool) (s : Text) (ts : List Text)
    → all p ts ≡ true
    → contains s ts ≡ true
    → p s ≡ true
all-contains p s [] h found = cc
all-contains p s (t ∷ ts) h found = ground (arith, text_beq_iff t s, all-contains p s ts)

is_go_keyword-starts_lower : (s : Text) → is_go_keyword s ≡ true → starts_lower s ≡ true
unfolding is_go_keyword
is_go_keyword-starts_lower s h = all-contains starts_lower s go_keywords refl h

upper_not_lower : (c : ℕ) → is_upper c ≡ true → is_lower c ≡ false
upper_not_lower c h = ground arith

keyword_not_exported :
    (c : ℕ) (s : Text) → is_go_keyword (c ∷ s) ≡ true → exported_shape (c ∷ s) ≡ false
keyword_not_exported c s h = ground (arith, is_go_keyword-starts_lower (c ∷ s) h, upper_not_lower c)

-- `IsExportedGoIdent` accepts exactly the texts that start with an upper-case ASCII letter and go
-- on with ASCII letters, digits and underscores; no such text is a Go keyword.
pub is_exported_go_ident_shape : (s : Text) → is_exported_go_ident s ≡ exported_shape s
unfolding is_exported_go_ident text_beq
is_exported_go_ident_shape [] = refl
is_exported_go_ident_shape (c ∷ s) = elim (Bool-cases (is_go_keyword (c ∷ s))) [
  | inl keyword ↦ rw keyword (sym (keyword_not_exported c s keyword))
  | inr other ↦ rw other (ident_runes-start c s)
]
