-- ===== src/Names/Literal.antt =====
-- The grammar of `isDecimalLiteral`, and `IsSafeDefaultValue`.
use gombit_forge.Prelude.{
  ℕ, ◌+◌, ◌<◌, ◌≡◌, refl, Bool, true, false, ◌&&◌, ◌||◌, List, [], ◌∷◌, arith, ◌==◌, nat_eq,
  text_eq, all, any, length, leb, ltb, Text, if◌then◌else◌,
}
use gombit_forge.Names.{is_digit, decimal_loop, is_decimal_literal}
use gombit_forge.Names.Storage.{split, push, is_nonempty, all_chars-push}

length_eq-push : (c : ℕ) (ps : List Text) → 0 < length ps → length (push c ps) ≡ length ps
length_eq-push c [] h = elim h [ ]
length_eq-push c (p ∷ ps) h = refl

any_nonempty-push : (c : ℕ) (ps : List Text) → any is_nonempty (push c ps) ≡ true
any_nonempty-push c [] = refl
any_nonempty-push c (p ∷ ps) = refl

split_pos : (s : Text) → 0 < length (split b'.' s)
unfolding split
split_pos [] = omega arith
split_pos (c ∷ s) = ground (arith, split_pos s, length_eq-push c (split b'.' s))

-- `points` more decimal points may follow.
abbrev pub decimal_parts : List Text → ℕ → Bool
decimal_parts parts points = all (all is_digit) parts && leb (length parts) (points + 1)

decimal_loop-parts :
    (s : Text) (n : ℕ) (seen : Bool)
    → decimal_loop s n seen ≡ (
        decimal_parts (split b'.' s) (if seen then 0 else 1)
        && (ltb 0 n || any is_nonempty (split b'.' s)))
unfolding decimal_loop split
decimal_loop-parts [] n true = ground arith
decimal_loop-parts [] n false = ground arith
decimal_loop-parts (c ∷ s) n seen = ground (
  arith,
  split_pos s,
  length_eq-push c (split b'.' s),
  all_chars-push is_digit c (split b'.' s),
  any_nonempty-push c (split b'.' s),
  decimal_loop-parts s (n + 1) seen,
  decimal_loop-parts s n true,
)

-- What follows an optional sign.
abbrev pub unsigned : Text → Text
unsigned [] = []
unsigned (c ∷ s) = if c == b'+' || c == b'-' then s else c ∷ s

-- `isDecimalLiteral` accepts exactly an optional sign followed by digits with at most one decimal
-- point among them and at least one digit.
pub is_decimal_literal-eq-parts :
    (s : Text)
    → is_decimal_literal s
      ≡ (decimal_parts (split b'.' (unsigned s)) 1 && any is_nonempty (split b'.' (unsigned s)))
unfolding is_decimal_literal
is_decimal_literal-eq-parts [] = unfold split in refl
is_decimal_literal-eq-parts (c ∷ s) =
    ground (arith, decimal_loop-parts s 0 false, decimal_loop-parts (c ∷ s) 0 false)
