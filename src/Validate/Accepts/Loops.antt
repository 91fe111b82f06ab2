-- ===== src/Validate/Accepts/Loops.antt =====
-- Names that a loop has used so far, and names that a list holds once.
use gombit_forge.Prelude.{
  ◌≡◌, refl, Bool, true, false, not, ◌&&◌, List, [], ◌∷◌, contains, ◌==◌, text_eq, text_beq_iff,
  Text, arith,
}
use gombit_forge.StableId.{StableId}
use gombit_forge.Validate.{Code, report_if, name_reports, name_used}
use gombit_forge.Validate.Fields.{is_empty}
use gombit_forge.Validate.Accepts.{is_distinct, is_unused}

-- No name of the list is one of those used.
abbrev avoids : List Text → List Text → Bool
avoids used [] = true
avoids used (x ∷ xs) = not (contains x used) && avoids used xs

text_beq_comm : (a b : Text) → (a == b) ≡ (b == a)
text_beq_comm a b = ground (arith, text_beq_iff a b, text_beq_iff b a)

avoids-cons :
    (x : Text) (used xs : List Text)
    → avoids (x ∷ used) xs ≡ (not (contains x xs) && avoids used xs)
avoids-cons x used [] = refl
avoids-cons x used (y ∷ ys) = ground (arith, text_beq_comm x y, avoids-cons x used ys)

is_unused-avoids : (used xs : List Text) → is_unused used xs ≡ (is_distinct xs && avoids used xs)
is_unused-avoids used [] = refl
is_unused-avoids used (x ∷ xs) =
    ground (arith, is_unused-avoids (x ∷ used) xs, avoids-cons x used xs)

avoids-nil : (xs : List Text) → avoids [] xs ≡ true
avoids-nil [] = refl
avoids-nil (x ∷ xs) = avoids-nil xs

pub is_unused-nil : (xs : List Text) → is_unused [] xs ≡ is_distinct xs
is_unused-nil xs = ground (arith, is_unused-avoids [] xs, avoids-nil xs)

-- One round of a loop that uses a name, if it is good.
pub is_unused-name_used :
    (good : Bool) (used names : List Text) (name : Text)
    → ((good && not (contains name used)) && is_unused (name_used good used name) names)
      ≡ (good && is_unused used (name ∷ names))
is_unused-name_used false used names name = refl
is_unused-name_used true used names name = ground arith

pub is_empty-report_if :
    (b : Bool) (code : Code) (path : Text) (entity : StableId)
    → is_empty (report_if b code path entity) ≡ not b
is_empty-report_if false code path entity = refl
is_empty-report_if true code path entity = refl

pub is_empty-name_reports :
    (good : Bool) (bad again : Code) (path : Text) (entity : StableId) (used : List Text)
    (name : Text)
    → is_empty (name_reports good bad again path entity used name)
      ≡ (good && not (contains name used))
is_empty-name_reports false bad again path entity used name = refl
is_empty-name_reports true bad again path entity used name = ground arith
