-- ===== src/Version.antt =====
-- internal/gombit/version.go: the versions of the Gombit toolchain. What the package uses of `strings`
-- and of `strconv.Atoi` is written out; a component is a number that is not negative, as
-- `ParseVersion` makes it, and the texts of the errors are left out.
pub mod Printed
pub mod Ordered
use gombit_forge.Prelude.{
  ℕ, zero, suc, ◌+◌, ◌^◌, Bool, true, false, not, ◌&&◌, Option, none, some, List, [], ◌∷◌, ◌++◌,
  all, ltb, leb, if◌then◌else◌, ◌==◌, nat_eq, text_eq, Text, codes,
}
use gombit_forge.Prelude.Int.{ℤ, pos, negsuc, is_negative}
use gombit_forge.Prelude.Space.{trim_space}
use gombit_forge.Prelude.Decimal.{is_digit, itoa, value_onto}
use gombit_forge.Prelude.Result.{Result, ok, err, ◌>>=◌}
use gombit_forge.Names.Storage.{split}

pub record Version : Type 0 where
  pub major : ℕ
  pub minor : ℕ
  pub patch : ℕ

abbrev pub minimum_version : Version
minimum_version = record { major = 0; minor = 1; patch = 12 }

pub data VersionError : Type 0 where
  empty_version : VersionError
  not_three_parts : Text → VersionError
  invalid_component : Text → Text → VersionError
  no_version_line : VersionError
  older_than_minimum : Version → VersionError

abbrev is_digits : Text → Bool
is_digits [] = false
is_digits (c ∷ s) = all is_digit (c ∷ s)

abbrev negated : ℕ → ℤ
negated zero = pos 0
negated (suc n) = negsuc n

-- strconv.Atoi, at 64 bits
unfoldable pub atoi : Text → Option ℤ
atoi [] = none
atoi (c ∷ s) =
    if c == b'-'
    then if is_digits s && leb (value_onto 0 s) (2 ^ 63)
      then some (negated (value_onto 0 s))
      else none
    else if c == b'+'
    then if is_digits s && ltb (value_onto 0 s) (2 ^ 63) then some (pos (value_onto 0 s)) else none
    else if is_digits (c ∷ s) && ltb (value_onto 0 (c ∷ s)) (2 ^ 63)
    then some (pos (value_onto 0 (c ∷ s)))
    else none

-- A component: the loop of `ParseVersion` refuses what does not parse or is negative.
abbrev number_of : Text → Text → Option ℤ → Result VersionError ℕ
number_of value part none = err (invalid_component value part)
number_of value part (some (negsuc n)) = err (invalid_component value part)
number_of value part (some (pos n)) = ok n

abbrev component : Text → Text → Result VersionError ℕ
component value part = number_of value part (atoi part)

abbrev pub parse_parts : Text → List Text → Result VersionError Version
parse_parts value (major ∷ minor ∷ patch ∷ []) = component value major >>= λ a.
    component value minor >>= λ b.
    component value patch >>= λ c. ok (record { major = a; minor = b; patch = c })
parse_parts value _ = err (not_three_parts value)

-- strings.TrimPrefix(s, "v")
abbrev pub trim_v : Text → Text
trim_v [] = []
trim_v (c ∷ s) = if c == b'v' then s else c ∷ s

abbrev pub parse_trimmed : Text → Text → Result VersionError Version
parse_trimmed value trimmed =
    if trimmed == [] then err empty_version else parse_parts value (split b'.' trimmed)

-- `ParseVersion`
unfoldable pub parse_version : Text → Result VersionError Version
parse_version value = parse_trimmed value (trim_v (trim_space value))

-- `String`
unfoldable pub version_string : Version → Text
version_string v = b'v' ∷ (itoa v.major ++ (b'.' ∷ (itoa v.minor ++ (b'.' ∷ itoa v.patch))))

-- The loop of `Compare`.
unfoldable pub compare_pairs : List (ℕ × ℕ) → ℤ
compare_pairs [] = pos 0
compare_pairs ((a, b) ∷ rest) =
    let later = compare_pairs rest in if ltb a b then negsuc 0 else if ltb b a then pos 1 else later

-- `Compare`
unfoldable pub compare : Version → Version → ℤ
unfolding compare_pairs
compare v other =
    compare_pairs ((v.major, other.major) ∷ (v.minor, other.minor) ∷ (v.patch, other.patch) ∷ [])

abbrev pub at_least : Version → Version → Bool
at_least v other = not (is_negative (compare v other))

abbrev pub check_supported : Version → Result VersionError Version
check_supported detected =
    if not (at_least detected minimum_version)
    then err (older_than_minimum detected)
    else ok detected

-- strings.Cut(line, ":")
unfoldable pub cut : ℕ → Text → Option (Text × Text)
cut sep [] = none
cut sep (c ∷ s) =
    let rest = cut sep s in
    if c == sep
    then some ([], s)
    else elim rest [ none ↦ none | some found ↦ some (c ∷ found.0, found.1) ]

-- The value on the line that names the toolchain.
abbrev named_value : Option (Text × Text) → Option Text
named_value none = none
named_value (some (key, value)) = if trim_space key == codes "gombit" then some value else none

unfoldable pub version_in : List Text → Result VersionError Version
unfolding cut
version_in [] = err no_version_line
version_in (line ∷ lines) = elim (named_value (cut b':' line)) [
  | none ↦ version_in lines
  | some value ↦ parse_version value
]

-- `parseVersionOutput`
unfoldable pub parse_version_output : Text → Result VersionError Version
unfolding version_in
parse_version_output output = version_in (split 10 output)
