-- ===== src/Names.antt =====
-- internal/spec/names.go: what a legal name is in each naming domain. Strings are lists of code
-- points; `len` counts their UTF-8 bytes.
pub mod Ident
pub mod Storage
pub mod Literal
use gombit_forge.Prelude.{
  ℕ, zero, suc, ◌+◌, Bool, true, false, not, ◌&&◌, ◌||◌, Option, none, some, List, [], ◌∷◌, ◌++◌,
  ltb, between, if◌then◌else◌, is_some, ◌==◌, nat_eq, text_eq, contains, Text, codes,
}
use gombit_forge.Prelude.Assoc.{Assoc, lookup}
pub use gombit_forge.Prelude.Decimal.{is_digit}

abbrev pub is_upper : ℕ → Bool
is_upper c = between b'A' b'Z' c

abbrev pub is_lower : ℕ → Bool
is_lower c = between b'a' b'z' c

abbrev pub go_keywords : List Text
go_keywords =
    codes "break"
    ∷ codes "case"
    ∷ codes "chan"
    ∷ codes "const"
    ∷ codes "continue"
    ∷ codes "default"
    ∷ codes "defer"
    ∷ codes "else"
    ∷ codes "fallthrough"
    ∷ codes "for"
    ∷ codes "func"
    ∷ codes "go"
    ∷ codes "goto"
    ∷ codes "if"
    ∷ codes "import"
    ∷ codes "interface"
    ∷ codes "map"
    ∷ codes "package"
    ∷ codes "range"
    ∷ codes "return"
    ∷ codes "select"
    ∷ codes "struct"
    ∷ codes "switch"
    ∷ codes "type"
    ∷ codes "var"
    ∷ []

unfoldable pub is_go_keyword : Text → Bool
is_go_keyword name = contains name go_keywords

-- The table maps a reserved symbol to the reason that a diagnostic shows.
abbrev pub reserved_model_symbols : Assoc Text Text
reserved_model_symbols =
    (codes "Model", codes "gorm.Model is embedded on every generated model")
    ∷ (codes "ID", codes "gorm.Model provides the primary key ID")
    ∷ (codes "CreatedAt", codes "gorm.Model provides CreatedAt")
    ∷ (codes "UpdatedAt", codes "gorm.Model provides UpdatedAt")
    ∷ (codes "DeletedAt", codes "gorm.Model provides DeletedAt (soft delete)")
    ∷ (
      codes "TableName",
      codes
          "the generated model defines a TableName method, and Go forbids a field and method of the same name",
    )
    ∷ []

abbrev pub reserved_storage_names : Assoc Text Text
reserved_storage_names =
    (codes "id", codes "gorm.Model provides the primary key column id")
    ∷ (codes "created_at", codes "gorm.Model provides created_at")
    ∷ (codes "updated_at", codes "gorm.Model provides updated_at")
    ∷ (codes "deleted_at", codes "gorm.Model provides deleted_at (soft delete)")
    ∷ []

unfoldable pub reserved_model_symbol : Text → Option Text
reserved_model_symbol name = lookup name reserved_model_symbols

unfoldable pub is_reserved_code_name : Text → Bool
unfolding reserved_model_symbol
is_reserved_code_name name = is_some (lookup name reserved_model_symbols)

unfoldable pub reserved_storage_name : Text → Option Text
reserved_storage_name name = lookup name reserved_storage_names

unfoldable pub is_reserved_storage_name : Text → Bool
is_reserved_storage_name name = is_some (lookup name reserved_storage_names)

-- The body of the loop of `IsExportedGoIdent`: does the loop go on after this rune?
ident_rune : ℕ → ℕ → Bool
ident_rune index char =
    if is_upper char
    then true
    else if is_lower char
    then not (index == 0)
    else if is_digit char
    then not (index == 0)
    else if char == b'_'
    then not (index == 0)
    else false

ident_runes : ℕ → Text → Bool
unfolding ident_rune
ident_runes index [] = true
ident_runes index (char ∷ rest) = ident_rune index char && ident_runes (index + 1) rest

unfoldable pub is_exported_go_ident : Text → Bool
unfolding ident_runes
is_exported_go_ident name = if name == [] || is_go_keyword name then false else ident_runes 0 name

-- len(s): the bytes of the UTF-8 encoding.
abbrev rune_len : ℕ → ℕ
rune_len c = if ltb c 0x80 then 1 else if ltb c 0x800 then 2 else if ltb c 0x10000 then 3 else 4

abbrev pub byte_len : Text → ℕ
byte_len [] = 0
byte_len (c ∷ s) = rune_len c + byte_len s

-- strings.HasPrefix(s, sep), strings.HasSuffix(s, sep) and strings.Contains(s, sep+sep) at a
-- separator of one character
abbrev pub has_prefix : ℕ → Text → Bool
has_prefix sep [] = false
has_prefix sep (c ∷ s) = c == sep

abbrev pub has_suffix : ℕ → Text → Bool
has_suffix sep [] = false
has_suffix sep (c ∷ []) = c == sep
has_suffix sep (c ∷ d ∷ s) = has_suffix sep (d ∷ s)

abbrev pub contains_double : ℕ → Text → Bool
contains_double sep [] = false
contains_double sep (c ∷ []) = false
contains_double sep (c ∷ d ∷ s) = (c == sep && d == sep) || contains_double sep (d ∷ s)

storage_rune : ℕ → ℕ → Bool
storage_rune index char =
    if is_lower char
    then true
    else if char == b'_'
    then true
    else if is_digit char
    then not (index == 0)
    else false

storage_runes : ℕ → Text → Bool
unfolding storage_rune
storage_runes index [] = true
storage_runes index (char ∷ rest) = storage_rune index char && storage_runes (index + 1) rest

unfoldable pub is_storage_name : Text → Bool
unfolding storage_runes
is_storage_name name =
    if name == [] || ltb 63 (byte_len name)
    then false
    else if has_prefix b'_' name || has_suffix b'_' name || contains_double b'_' name
    then false
    else storage_runes 0 name

slug_rune : ℕ → ℕ → Bool
slug_rune index char =
    if is_lower char
    then true
    else if char == b'-'
    then true
    else if is_digit char
    then not (index == 0)
    else false

slug_runes : ℕ → Text → Bool
unfolding slug_rune
slug_runes index [] = true
slug_runes index (char ∷ rest) = slug_rune index char && slug_runes (index + 1) rest

unfoldable pub is_slug : Text → Bool
unfolding slug_runes
is_slug value =
    if value == [] || ltb 63 (byte_len value)
    then false
    else if has_prefix b'-' value || has_suffix b'-' value || contains_double b'-' value
    then false
    else slug_runes 0 value

-- The loop of `isDecimalLiteral`, with its `digits` and `seenPoint`.
decimal_loop : Text → ℕ → Bool → Bool
decimal_loop [] digits seen_point = ltb 0 digits
decimal_loop (char ∷ rest) digits seen_point = elim (is_digit char) [
  | true ↦ decimal_loop rest (digits + 1) seen_point
  | false ↦ elim (char == b'.' && not seen_point) [
    | true ↦ decimal_loop rest digits true
    | false ↦ false
  ]
]

unfoldable pub is_decimal_literal : Text → Bool
unfolding decimal_loop
is_decimal_literal [] = false
is_decimal_literal (char ∷ rest) =
    if char == b'+' || char == b'-'
    then decimal_loop rest 0 false
    else decimal_loop (char ∷ rest) 0 false

-- A rune that no default in generated output can hold.
unfoldable pub is_unsafe_rune : ℕ → Bool
is_unsafe_rune r = if r == b';' || r == b'"' || r == b'`' || r == 0x5c then true else ltb r 0x20

-- `IsSafeDefaultValue`: the first offending rune, if there is one. It is reported as a rune; the
-- source formats it.
unfoldable pub unsafe_default_rune : Text → Option ℕ
unfolding is_unsafe_rune
unsafe_default_rune [] = none
unsafe_default_rune (r ∷ rest) = if is_unsafe_rune r then some r else unsafe_default_rune rest

-- `GeneratedModelFieldName`; the flag tells that the field's type is belongs_to.
unfoldable pub generated_model_field_name : Text → Bool → Text
generated_model_field_name code_name is_relation =
    if is_relation then code_name ++ codes "ID" else code_name
