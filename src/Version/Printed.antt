-- ===== src/Version/Printed.antt =====
-- A printed version reads back.
use gombit_forge.Prelude.{
  ◌≡◌, refl, ap, ◌∙◌, ℕ, ◌^◌, ◌<◌, Bool, true, false, not, some, [], ◌∷◌, ◌++◌, all, all-append,
  ltb, ◌==◌, nat_eq, text_eq, text_beq, Text, length, arith,
}
use gombit_forge.Prelude.Int.{pos}
use gombit_forge.Prelude.Space.{is_space, drop_end_space, cons_trimmed, trim_space}
use gombit_forge.Prelude.Decimal.{
  is_digit, itoa, value_onto, value-itoa, all_digits-itoa, itoa-length,
}
use gombit_forge.Prelude.Result.{ok}
use gombit_forge.Names.Storage.{split}
use gombit_forge.Version.{
  Version, atoi, parse_version, parse_parts, parse_trimmed, trim_v, version_string,
}

abbrev is_visible : ℕ → Bool
is_visible c = not (is_space c)

drop_end_space-visible : (s : Text) → all is_visible s ≡ true → drop_end_space s ≡ s
drop_end_space-visible [] h = refl
drop_end_space-visible (c ∷ s) h =
    ap (cons_trimmed c) (drop_end_space-visible s (ground arith)) ∙ last_visible c s (ground arith)
  where
    last_visible : (c : ℕ) (s : Text) → is_visible c ≡ true → cons_trimmed c s ≡ c ∷ s
    last_visible c [] h = let visible : is_space c ≡ false = ground arith in rw visible refl
    last_visible c (d ∷ s) h = refl

digit-is_visible : (c : ℕ) → is_digit c ≡ true → is_visible c ≡ true
digit-is_visible c h = ground arith

digits-is_visible : (s : Text) → all is_digit s ≡ true → all is_visible s ≡ true
digits-is_visible [] h = refl
digits-is_visible (c ∷ s) h =
    ground (arith, digit-is_visible c (ground arith), digits-is_visible s (ground arith))

digit_is_not : (c k : ℕ) → is_digit c ≡ true → is_digit k ≡ false → (c == k) ≡ false
digit_is_not c k h other = ground arith

split-digits :
    (s rest : Text) → all is_digit s ≡ true → split b'.' (s ++ (b'.' ∷ rest)) ≡ s ∷ split b'.' rest
unfolding split
split-digits [] rest h = refl
split-digits (c ∷ s) rest h =
    let other : (c == b'.') ≡ false = digit_is_not c b'.' (ground arith) refl in
    rw (other, split-digits s rest (ground arith)) refl

split-last : (s : Text) → all is_digit s ≡ true → split b'.' s ≡ s ∷ []
unfolding split
split-last [] h = refl
split-last (c ∷ s) h =
    let other : (c == b'.') ≡ false = digit_is_not c b'.' (ground arith) refl in
    rw (other, split-last s (ground arith)) refl

atoi-digits :
    (s : Text)
    → all is_digit s ≡ true
    → 0 < length s
    → value_onto 0 s < 2 ^ 63
    → atoi s ≡ some (pos (value_onto 0 s))
unfolding atoi
atoi-digits [] h e bound = absurd (omega arith)
atoi-digits (c ∷ s) h e bound =
    let no_minus : (c == b'-') ≡ false = digit_is_not c b'-' (ground arith) refl in
    let no_plus : (c == b'+') ≡ false = digit_is_not c b'+' (ground arith) refl in
    let small : ltb (value_onto 0 (c ∷ s)) (2 ^ 63) ≡ true = ground arith in
    rw (no_minus, no_plus, h, small) refl

atoi-itoa : (n : ℕ) → n < 2 ^ 63 → atoi (itoa n) ≡ some (pos n)
atoi-itoa n bound =
    atoi-digits (itoa n) (all_digits-itoa n) (itoa-length n) (rw value-itoa bound)
    ∙ ap (λ m. some (pos m)) (value-itoa n)

visible-itoa : (n : ℕ) → all is_visible (itoa n) ≡ true
visible-itoa n = digits-is_visible (itoa n) (all_digits-itoa n)

trim_space-version_string : (v : Version) → trim_space (version_string v) ≡ version_string v
unfolding version_string
trim_space-version_string v = drop_end_space-visible (version_string v) (
    ground (
      arith,
      all-append is_visible (itoa v.major) (b'.' ∷ (itoa v.minor ++ (b'.' ∷ itoa v.patch))),
      all-append is_visible (itoa v.minor) (b'.' ∷ itoa v.patch),
      visible-itoa v.major,
      visible-itoa v.minor,
      visible-itoa v.patch,
    ))

split-three :
    (a b c : ℕ)
    → split b'.' (itoa a ++ (b'.' ∷ (itoa b ++ (b'.' ∷ itoa c)))) ≡ itoa a ∷ itoa b ∷ itoa c ∷ []
split-three a b c =
    split-digits (itoa a) (itoa b ++ (b'.' ∷ itoa c)) (all_digits-itoa a)
    ∙ ap (λ t. itoa a ∷ t) (split-digits (itoa b) (itoa c) (all_digits-itoa b))
    ∙ ap (λ t. itoa a ∷ itoa b ∷ t) (split-last (itoa c) (all_digits-itoa c))

parse_parts-itoa :
    (value : Text) (v : Version)
    → v.major < 2 ^ 63
    → v.minor < 2 ^ 63
    → v.patch < 2 ^ 63
    → parse_parts value (itoa v.major ∷ itoa v.minor ∷ itoa v.patch ∷ []) ≡ ok v
parse_parts-itoa value v a b c =
    rw (atoi-itoa v.major a, atoi-itoa v.minor b, atoi-itoa v.patch c) refl

append_cons_filled : (s : Text) (c : ℕ) (t : Text) → (s ++ (c ∷ t)) == [] ≡ false
unfolding text_beq
append_cons_filled [] c t = refl
append_cons_filled (d ∷ s) c t = refl

parse_trimmed-itoa :
    (value : Text) (v : Version)
    → v.major < 2 ^ 63
    → v.minor < 2 ^ 63
    → v.patch < 2 ^ 63
    → parse_trimmed value (itoa v.major ++ (b'.' ∷ (itoa v.minor ++ (b'.' ∷ itoa v.patch)))) ≡ ok v
parse_trimmed-itoa value v a b c =
    let filled = append_cons_filled (itoa v.major) b'.' (itoa v.minor ++ (b'.' ∷ itoa v.patch)) in
    rw (filled, split-three v.major v.minor v.patch) (parse_parts-itoa value v a b c)

-- A version whose components fit in 63 bits is read back from its printed form.
pub parse_version-version_string :
    (v : Version)
    → v.major < 2 ^ 63
    → v.minor < 2 ^ 63
    → v.patch < 2 ^ 63
    → parse_version (version_string v) ≡ ok v
unfolding parse_version version_string
parse_version-version_string v a b c =
    ap (λ t. parse_trimmed (version_string v) (trim_v t)) (trim_space-version_string v)
    ∙ parse_trimmed-itoa (version_string v) v a b c
