-- ===== src/StableId.antt =====
-- internal/spec/id.go: stable IDs, a kind and a ULID in Crockford base 32 joined by an underscore.
-- The clock and the entropy source are arguments; reading entropy may fail.
pub mod Minted
use gombit_forge.Prelude.{
  ℕ, zero, suc, ◌+◌, ◌-◌, ◌*◌, ◌/◌, ◌%◌, ◌^◌, Bool, true, false, ◌&&◌, Option, none, some, List, [],
  ◌∷◌, ◌++◌, ltb, leb, if◌then◌else◌, ◌==◌, nat_eq, text_eq, contains, all, length, Text, codes,
}
use gombit_forge.Names.{byte_len}

abbrev pub StableId : Type 0
StableId = Text

abbrev pub Kind : Type 0
Kind = Text

abbrev pub kind_project : Kind
kind_project = codes "prj"

abbrev pub kind_resource : Kind
kind_resource = codes "res"

abbrev pub kind_field : Kind
kind_field = codes "fld"

abbrev pub kind_relation : Kind
kind_relation = codes "rel"

abbrev pub kind_page : Kind
kind_page = codes "pag"

abbrev pub kind_action : Kind
kind_action = codes "act"

abbrev pub kind_hook : Kind
kind_hook = codes "hok"

abbrev pub kind_nav : Kind
kind_nav = codes "nav"

abbrev pub kinds : List Kind
kinds =
    kind_project ∷ kind_resource ∷ kind_field ∷ kind_relation ∷ kind_page ∷ kind_action ∷ kind_hook
    ∷ kind_nav ∷ []

abbrev pub crockford : Text
crockford = codes "0123456789ABCDEFGHJKMNPQRSTVWXYZ"

abbrev pub ulid_len : ℕ
ulid_len = 26

-- strings.Cut(s, "_")
pub cut : Text → Option (Text × Text)
cut [] = none
cut (c ∷ s) =
    let rest = cut s in
    if c == b'_'
    then some ([], s)
    else elim rest [ none ↦ none | some (before, after) ↦ some (c ∷ before, after) ]

prefix_of : Option (Text × Text) → Kind
prefix_of none = []
prefix_of (some (prefix, body)) = prefix

unfoldable pub kind_of : StableId → Kind
unfolding cut prefix_of
kind_of id = prefix_of (cut id)

is_valid_parts : Kind → Option (Text × Text) → Bool
is_valid_parts kind none = false
is_valid_parts kind (some (prefix, body)) =
    prefix == kind && byte_len body == ulid_len && all (λ char. contains char crockford) body

unfoldable pub is_valid : StableId → Kind → Bool
unfolding cut is_valid_parts
is_valid id kind = is_valid_parts kind (cut id)

-- crockford[i]; the code reads it below 32 only
pub crockford_char : Text → ℕ → ℕ
crockford_char [] i = b'0'
crockford_char (c ∷ s) zero = c
crockford_char (c ∷ s) (suc i) = crockford_char s i

-- The variables of `encodeCrockford`; `out` is what stands right of `pos`.
pub record Encoder : Type 0 where
  pub value : ℕ
  pub bits : ℕ
  pub out : Text

pub emit : Encoder → Encoder
unfolding crockford_char
emit e = record {
  value = e.value / 32;
  bits = e.bits - 5;
  out = crockford_char crockford (e.value % 32) ∷ e.out;
}

-- for bits >= 5; there are at most 12 bits, so two rounds are enough
emit_loop : ℕ → Encoder → Encoder
unfolding emit
emit_loop zero e = e
emit_loop (suc fuel) e = let next = emit_loop fuel (emit e) in if leb 5 e.bits then next else e

-- `value |= uint64(raw[i]) << bits`: the value is below 2 ^ bits, so that no bits overlap.
take_byte : ℕ → Encoder → Encoder
unfolding emit_loop
take_byte byte e =
    emit_loop 2 (record e { value = (e.value + byte * 2 ^ e.bits) % 2 ^ 64; bits = e.bits + 8 })

-- for i := len(raw) - 1; i >= 0; i--
pub take_bytes : List ℕ → Encoder
unfolding take_byte
take_bytes [] = record { value = 0; bits = 0; out = [] }
take_bytes (byte ∷ rest) = take_byte byte (take_bytes rest)

-- for pos >= 0, with `pos + 1` rounds left
pub fill : ℕ → Encoder → Text
unfolding emit
fill zero e = e.out
fill (suc rounds) e = fill rounds (emit e)

unfoldable pub encode_crockford : List ℕ → Text
unfolding take_bytes fill
encode_crockford raw = let e = take_bytes raw in fill (ulid_len - length e.out) e

-- raw[5-i] = byte(millis >> (8 * i)) for i below 6
millis_bytes : ℕ → List ℕ
millis_bytes millis =
    millis / 2 ^ 40 % 256
    ∷ millis / 2 ^ 32 % 256
    ∷ millis / 2 ^ 24 % 256
    ∷ millis / 2 ^ 16 % 256
    ∷ millis / 2 ^ 8 % 256
    ∷ millis % 256
    ∷ []

-- `newIDAt`: `millis` is the clock, `entropy` the ten bytes that were read, if that succeeded.
unfoldable pub new_id_at : Kind → ℕ → Option (List ℕ) → Option StableId
unfolding encode_crockford millis_bytes
new_id_at kind millis none = none
new_id_at kind millis (some random) =
    if kind == []
    then none
    else some ((kind ++ b'_' ∷ []) ++ encode_crockford (millis_bytes millis ++ random))
