-- ===== src/Validate/Defaults.antt =====
-- `validateFieldDefault` of internal/spec/validate.go, with `strconv.ParseInt` in base 10 and
-- `time.Parse` at its two layouts, which it uses.
use gombit_forge.Prelude.{
  ℕ, ◌+◌, ◌-◌, ◌*◌, ◌%◌, ◌^◌, Bool, true, false, not, ◌&&◌, ◌||◌, Option, none, some, List, [], ◌∷◌,
  ◌++◌, all, ltb, leb, between, nat_beq, nat_eq, is_some, if◌then◌else◌, ◌==◌, text_eq, Text, codes,
}
use gombit_forge.Prelude.Decimal.{is_digit, value_onto}
use gombit_forge.Names.{is_decimal_literal, unsafe_default_rune}
use gombit_forge.ProjectSpec.{
  FieldType, string, text, integer, decimal, boolean, datetime, date, enum, belongs_to, other_type,
  Field, EnumValue,
}
use gombit_forge.Validate.{Diagnostic, invalid_default, report_if}

abbrev is_digits : Text → Bool
is_digits [] = false
is_digits (c ∷ s) = all is_digit (c ∷ s)

-- strconv.ParseInt(value, 10, 64) has no error: an optional sign, digits, and a number of 64 bits.
unfoldable pub parses_int : Text → Bool
parses_int [] = false
parses_int (c ∷ s) =
    if c == b'+'
    then is_digits s && ltb (value_onto 0 s) (2 ^ 63)
    else if c == b'-'
    then is_digits s && leb (value_onto 0 s) (2 ^ 63)
    else is_digits (c ∷ s) && ltb (value_onto 0 (c ∷ s)) (2 ^ 63)

-- A parse of a prefix: the number read and the rest.
abbrev Parsed : Type 0
Parsed = Option (ℕ × Text)

-- The two digits that `getnum` takes when it is told to; with one digit, `fixed` refuses.
get_num : Bool → Text → Parsed
get_num fixed [] = none
get_num fixed (c ∷ []) = if is_digit c then if fixed then none else some (c - 48, []) else none
get_num fixed (c ∷ d ∷ s) =
    if not (is_digit c)
    then none
    else if is_digit d
    then some ((c - 48) * 10 + (d - 48), s)
    else if fixed
    then none
    else some (c - 48, d ∷ s)

get_year : Text → Parsed
get_year (a ∷ b ∷ c ∷ d ∷ s) =
    if all is_digit (a ∷ b ∷ c ∷ d ∷ []) then some (value_onto 0 (a ∷ b ∷ c ∷ d ∷ []), s) else none
get_year _ = none

-- A number that a test accepts.
abbrev within : (ℕ → Bool) → Parsed → Parsed
within p none = none
within p (some (n, s)) = if p n then some (n, s) else none

-- The literal character of the layout.
skip_char : ℕ → Text → Option Text
skip_char c [] = none
skip_char c (d ∷ s) = if d == c then some s else none

infixl 5 ◌>>?◌
abbrev ◌>>?◌ {ℓ κ} : {A : Type ℓ} {B : Type κ} → Option A → (A → Option B) → Option B
none >>? f = none
some a >>? f = f a

is_leap : ℕ → Bool
is_leap year = nat_beq (year % 4) 0 && (not (nat_beq (year % 100) 0) || nat_beq (year % 400) 0)

days_in : ℕ → ℕ → ℕ
unfolding is_leap
days_in month year =
    if nat_beq month 2
    then if is_leap year then 29 else 28
    else if nat_beq month 4 || nat_beq month 6 || nat_beq month 9 || nat_beq month 11
    then 30
    else 31

-- 2006-01-02, the day checked by `checked` at the end of the parse; the rest of the text.
get_date : Text → Option (Bool × Text)
unfolding get_year get_num skip_char days_in
get_date s = get_year s >>? λ y. skip_char b'-' y.1 >>? λ s.
    within (between 1 12) (get_num true s) >>? λ m.
    skip_char b'-' m.1 >>? λ s. get_num true s >>? λ d. some (between 1 (days_in m.0 y.0) d.0, d.1)

-- time.Parse(time.DateOnly, s) has no error.
unfoldable pub is_date : Text → Bool
unfolding get_date
is_date s = elim (get_date s) [ none ↦ false | some p ↦ p.0 && p.1 == [] ]

-- A fraction of a second, that the layout does not ask for: all its digits are skipped.
drop_digits : Text → Text
drop_digits [] = []
drop_digits (c ∷ s) = if is_digit c then drop_digits s else c ∷ s

skip_fraction : Text → Text
unfolding drop_digits
skip_fraction (c ∷ d ∷ s) =
    if (c == b'.' || c == b',') && is_digit d then drop_digits s else c ∷ d ∷ s
skip_fraction s = s

two_digits : ℕ → ℕ → ℕ
two_digits c d = (c - 48) * 10 + (d - 48)

-- Z07:00 at the end of the text. Offsets of 24 hours and of 60 minutes are let through.
is_zone : Text → Bool
unfolding two_digits
is_zone (z ∷ []) = z == b'Z'
is_zone (sign ∷ h ∷ h' ∷ colon ∷ m ∷ m' ∷ []) =
    (sign == b'+' || sign == b'-')
    && colon == b':'
    && all is_digit (h ∷ h' ∷ m ∷ m' ∷ [])
    && leb (two_digits h h') 24
    && leb (two_digits m m') 60
is_zone _ = false

-- T15:04:05 and what follows; the hour may have one digit.
is_time : Text → Bool
unfolding get_num skip_char skip_fraction is_zone
is_time s =
    elim (skip_char b'T' s >>? λ s. within (λ hour. ltb hour 24) (get_num false s) >>? λ h.
    skip_char b':' h.1 >>? λ s. within (λ minute. ltb minute 60) (get_num true s) >>? λ m.
    skip_char b':' m.1 >>? λ s. within (λ second. ltb second 60) (get_num true s)) [
      | none ↦ false
      | some p ↦ is_zone (skip_fraction p.1)
    ]

-- time.Parse(time.RFC3339, s) has no error.
unfoldable pub is_rfc3339 : Text → Bool
unfolding get_date is_time
is_rfc3339 s = elim (get_date s) [ none ↦ false | some p ↦ p.0 && is_time p.1 ]

abbrev is_safe : Text → Bool
is_safe value = not (is_some (unsafe_default_rune value))

-- The loop over the declared values: the first that is the default must be safe.
enum_default : List EnumValue → Text → Bool
enum_default [] value = false
enum_default (v ∷ rest) value = if v.value == value then is_safe value else enum_default rest value

-- The default is one that no diagnostic is about.
unfoldable pub is_valid_default : FieldType → List EnumValue → Text → Bool
unfolding enum_default
is_valid_default string values value = is_safe value
is_valid_default text values value = is_safe value
is_valid_default integer values value = parses_int value
is_valid_default decimal values value = is_decimal_literal value
is_valid_default boolean values value = value == codes "true" || value == codes "false"
is_valid_default datetime values value = is_rfc3339 value
is_valid_default date values value = is_date value
is_valid_default enum values value = enum_default values value
is_valid_default belongs_to values value = false
is_valid_default (other_type t) values value = true

unfoldable pub validate_field_default : Field → Text → List Diagnostic
validate_field_default f path = elim f.default [
  | none ↦ []
  | some value ↦
      report_if (not (is_valid_default f.type f.enum_values value)) invalid_default
        (path ++ codes ".default") f.id
]
