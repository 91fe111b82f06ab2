-- ===== src/Prelude/Space.antt =====
-- `strings.TrimSpace`, and `unicode.IsSpace` that it tests.
use Prim.Native.Nat.{ℕ}
use mathlib.Core.Bool.{Bool, ◌||◌}
use mathlib.Core.List.{[], ◌∷◌}
use gombit_forge.Prelude.Tests.{between, nat_beq, if◌then◌else◌}
use gombit_forge.Prelude.Lists.{all}
use gombit_forge.Prelude.Codes.{Text}

abbrev pub is_space : ℕ → Bool
is_space c =
    between 9 13 c
    || nat_beq c 32
    || nat_beq c 133
    || nat_beq c 160
    || nat_beq c 5760
    || between 8192 8202 c
    || between 8232 8233 c
    || nat_beq c 8239
    || nat_beq c 8287
    || nat_beq c 12288

-- strings.TrimSpace(s) == ""
abbrev pub is_blank : Text → Bool
is_blank s = all is_space s

abbrev pub skip_space : Text → Text
skip_space [] = []
skip_space (c ∷ s) = if is_space c then skip_space s else c ∷ s

-- A white character is put before an empty rest only by a later one.
abbrev pub cons_trimmed : ℕ → Text → Text
cons_trimmed c [] = if is_space c then [] else c ∷ []
cons_trimmed c (d ∷ s) = c ∷ d ∷ s

abbrev pub drop_end_space : Text → Text
drop_end_space [] = []
drop_end_space (c ∷ s) = cons_trimmed c (drop_end_space s)

abbrev pub trim_space : Text → Text
trim_space s = drop_end_space (skip_space s)
