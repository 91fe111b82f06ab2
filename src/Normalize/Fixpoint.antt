-- ===== src/Normalize/Fixpoint.antt =====
-- `Normalize` is idempotent: a name that it returned comes back unchanged.
use mathlib.Core.Bool.{not, false≢true}
use mathlib.Core.Option.{some-injective}
use mathlib.Core.List.{append_assoc, append-nil}
use gombit_forge.Prelude.{
  ℕ, ◌≡◌, refl, sym, ap, ◌∙◌, Bool, true, false, ◌&&◌, none, some, List, [], ◌∷◌, ◌++◌, arith, all,
  if◌then◌else◌, Text, inl, inr, Bool-cases,
}
use gombit_forge.Names.{is_upper, is_lower}
use gombit_forge.Normalize.{
  is_alnum, flush, split_loop, upper_first_ascii, spell_leading, pascal_case, split_words,
  fold_to_ascii, fold_label, dropped_letter, checked, from_words, normalize,
}
use gombit_forge.Normalize.Words.{is_word, split_words-all_words}
use gombit_forge.Normalize.Totality.{pascal_shape, identifier-shape, checked-pascal, all-pascal}

pascal_case-append :
    (ws : List Text) (w : Text) → pascal_case (ws ++ w ∷ []) ≡ pascal_case ws ++ upper_first_ascii w
unfolding pascal_case
pascal_case-append [] w = append-nil _
pascal_case-append (v ∷ ws) w = rw (pascal_case-append ws w) (rw append_assoc)

pascal_case-flush :
    (words : List Text) (cur : Text)
    → pascal_case (flush words cur) ≡ pascal_case words ++ upper_first_ascii cur
pascal_case-flush words [] = unfold flush upper_first_ascii in rw append-nil
pascal_case-flush words (c ∷ cs) = unfold flush in pascal_case-append words (c ∷ cs)

-- The current word may only be empty if the next character starts a word as it is.
abbrev keeps_case : Text → Text → Bool
keeps_case (d ∷ cur) s = true
keeps_case [] [] = true
keeps_case [] (c ∷ s) = not (is_lower c)

upper_first-append :
    (cur : Text) (c : ℕ) (s : Text)
    → keeps_case cur (c ∷ s) ≡ true
    → upper_first_ascii (cur ++ c ∷ []) ≡ upper_first_ascii cur ++ c ∷ []
unfolding upper_first_ascii
upper_first-append [] c s h = ground arith
upper_first-append (d ∷ cur) c s h = refl

keeps_case-append : (cur : Text) (c : ℕ) (s : Text) → keeps_case (cur ++ c ∷ []) s ≡ true
keeps_case-append [] c s = refl
keeps_case-append (d ∷ cur) c s = refl

split_loop-boundary :
    (c : ℕ) (s : Text) (words : List Text) (cur : Text) (prev : ℕ)
    → is_alnum c ≡ true
    → (is_lower prev && is_upper c) ≡ true
    → split_loop (c ∷ s) words cur prev ≡ split_loop s (flush words cur) (c ∷ []) c
unfolding split_loop
split_loop-boundary c s words cur prev h b = ground arith

split_loop-same_word :
    (c : ℕ) (s : Text) (words : List Text) (cur : Text) (prev : ℕ)
    → is_alnum c ≡ true
    → (is_lower prev && is_upper c) ≡ false
    → split_loop (c ∷ s) words cur prev ≡ split_loop s words (cur ++ c ∷ []) c
unfolding split_loop
split_loop-same_word c s words cur prev h b = ground arith

upper_first-upper :
    (c prev : ℕ) → (is_lower prev && is_upper c) ≡ true → upper_first_ascii (c ∷ []) ≡ c ∷ []
unfolding upper_first_ascii
upper_first-upper c prev h = ground arith

pascal_case-split_loop :
    (s : Text) (words : List Text) (cur : Text) (prev : ℕ)
    → all is_alnum s ≡ true
    → keeps_case cur s ≡ true
    → pascal_case (split_loop s words cur prev) ≡ (pascal_case words ++ upper_first_ascii cur) ++ s
pascal_case-split_loop [] words cur prev h k =
    unfold split_loop in pascal_case-flush words cur ∙ rw append-nil
pascal_case-split_loop (c ∷ s) words cur prev h k =
    elim (Bool-cases (is_lower prev && is_upper c)) [
      | inl b ↦
          ap pascal_case (split_loop-boundary c s words cur prev (ground arith) b)
          ∙ pascal_case-split_loop s (flush words cur) (c ∷ []) c (ground arith) refl
          ∙ rw (pascal_case-flush words cur) (rw (upper_first-upper c prev b) (rw append_assoc))
      | inr b ↦
          ap pascal_case (split_loop-same_word c s words cur prev (ground arith) b)
          ∙ pascal_case-split_loop s words (cur ++ c ∷ []) c (ground arith)
              (keeps_case-append cur c s)
          ∙ rw (upper_first-append cur c s k) (simp append_assoc)
    ]

pascal_case-split_words : (s : Text) → pascal_shape s ≡ true → pascal_case (split_words s) ≡ s
unfolding split_words
pascal_case-split_words [] h = cc
pascal_case-split_words (c ∷ s) h =
    pascal_case-split_loop (c ∷ s) [] [] 0 (ground arith) (ground arith)
    ∙ unfold pascal_case upper_first_ascii in refl

from_words-cons :
    (w : Text) (words : List Text)
    → from_words (w ∷ words) ≡ checked (spell_leading (pascal_case (w ∷ words)))
unfolding from_words
from_words-cons w words = refl

spell_leading-upper : (s : Text) → pascal_shape s ≡ true → spell_leading s ≡ s
unfolding spell_leading
spell_leading-upper [] h = refl
spell_leading-upper (c ∷ s) h = ground arith

fold_label-alnum : (s : Text) → all is_alnum s ≡ true → fold_label s ≡ s
unfolding fold_label fold_to_ascii
fold_label-alnum [] h = refl
fold_label-alnum (c ∷ s) h = ground (arith, fold_label-alnum s)

from_words-pascal :
    (words : List Text)
    → pascal_shape (pascal_case words) ≡ true
    → from_words words ≡ some (pascal_case words)
from_words-pascal [] h = unfold pascal_case in absurd (false≢true h)
from_words-pascal (w ∷ words) h =
    from_words-cons w words
    ∙ ap checked (spell_leading-upper (pascal_case (w ∷ words)) h)
    ∙ checked-pascal (pascal_case (w ∷ words)) h

from_words-split_words : (s : Text) → pascal_shape s ≡ true → from_words (split_words s) ≡ some s
from_words-split_words s h =
    let e : pascal_case (split_words s) ≡ s = pascal_case-split_words s h in
    from_words-pascal (split_words s) (ap pascal_shape e ∙ h) ∙ ap some e

-- What the words of a label make has the shape of an identifier.
from_words-shape :
    (words : List Text) (out : Text)
    → all is_word words ≡ true
    → from_words words ≡ some out
    → pascal_shape out ≡ true
from_words-shape [] out h e = unfold from_words in cc
from_words-shape (w ∷ words) out h e =
    let s : Text = spell_leading (pascal_case (w ∷ words)) in
    let shape : pascal_shape s ≡ true = identifier-shape w words h in
    ap pascal_shape
      (sym (some-injective _ _ (sym (checked-pascal s shape) ∙ sym (from_words-cons w words) ∙ e)))
    ∙ shape

module _ (is_letter : ℕ → Bool) where
  dropped_letter-alnum : (s : Text) → all is_alnum s ≡ true → dropped_letter is_letter s ≡ false
  unfolding dropped_letter
  dropped_letter-alnum [] h = refl
  dropped_letter-alnum (c ∷ s) h = ground (arith, dropped_letter-alnum s)

  normalize_lem :
      (label : Text)
      → normalize is_letter label ≡ (
          if dropped_letter is_letter label
          then none
          else from_words (split_words (fold_label label)))
  unfolding normalize
  normalize_lem label = refl

  -- An upper-case letter followed by letters and digits is left as it is.
  normalize-pascal : (s : Text) → pascal_shape s ≡ true → normalize is_letter s ≡ some s
  normalize-pascal s h = rw (normalize_lem s) (
      rw (dropped_letter-alnum s (all-pascal s h))
        (rw (fold_label-alnum s (all-pascal s h)) (from_words-split_words s h)))

  -- A name that `Normalize` returns is an upper-case ASCII letter followed by ASCII letters and
  -- digits.
  pub normalize-pascal_shape :
      (label out : Text) → normalize is_letter label ≡ some out → pascal_shape out ≡ true
  normalize-pascal_shape label out e = elim (Bool-cases (dropped_letter is_letter label)) [
    | inl d ↦ cc (
      normalize_lem label,
      ap (λ (b : Bool). if b then none else from_words (split_words (fold_label label))) d,
    )
    | inr d ↦
        from_words-shape (split_words (fold_label label)) out
          (split_words-all_words (fold_label label)) (rw d at (sym (normalize_lem label) ∙ e))
  ]

  -- A name that `Normalize` returns for a label is returned unchanged when it is normalized again.
  pub normalize-normalize :
      (label out : Text) → normalize is_letter label ≡ some out → normalize is_letter out ≡ some out
  normalize-normalize label out e = normalize-pascal out (normalize-pascal_shape label out e)
