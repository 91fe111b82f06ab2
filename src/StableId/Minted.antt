-- ===== src/StableId/Minted.antt =====
-- An ID that `newIDAt` makes is valid for its kind.
use mathlib.Core.List.{append_assoc}
use mathlib.Core.Option.{some-injective}
use gombit_forge.Prelude.{
  ℕ, zero, suc, ◌+◌, ◌-◌, ◌*◌, ◌%◌, ◌^◌, ◌<◌, ◌≡◌, refl, sym, ap, ◌∙◌, Bool, true, false, ◌&&◌,
  none, some, List, [], ◌∷◌, ◌++◌, arith, all, contains, length, ltb, Text, nat_eq, text_eq,
  text_beq, ==_refl,
}
use gombit_forge.Names.{byte_len}
use gombit_forge.StableId.{
  StableId, Kind, crockford, cut, kind_of, is_valid, is_valid_parts, prefix_of, crockford_char,
  Encoder, emit, emit_loop, take_byte, take_bytes, fill, ulid_len, encode_crockford, millis_bytes,
  new_id_at,
}

abbrev pub in_crockford : ℕ → Bool
in_crockford char = contains char crockford

crockford_char-all :
    (p : ℕ → Bool) (s : Text) (i : ℕ)
    → all p s ≡ true
    → p b'0' ≡ true
    → p (crockford_char s i) ≡ true
unfolding crockford_char
crockford_char-all p [] i h z = z
crockford_char-all p (c ∷ s) zero h z = ground arith
crockford_char-all p (c ∷ s) (suc i) h z = crockford_char-all p s i (ground arith) z

take_bytes-cons :
    (byte : ℕ) (rest : List ℕ) → take_bytes (byte ∷ rest) ≡ take_byte byte (take_bytes rest)
unfolding take_bytes
take_bytes-cons byte rest = refl

and_left : (a b : Bool) → (a && b) ≡ true → a ≡ true
and_left true b h = refl
and_left false b h = h

and_right : (a b : Bool) → (a && b) ≡ true → b ≡ true
and_right true b h = h
and_right false b h = cc

-- Only digits of the alphabet are emitted.
abbrev IsEncoded : Encoder → Type 0
IsEncoded e = all in_crockford e.out ≡ true

emit-IsEncoded : (e : Encoder) → IsEncoded e → IsEncoded (emit e)
unfolding emit
emit-IsEncoded e h = rw (crockford_char-all in_crockford crockford (e.value % 32) refl refl) h

emit_loop-IsEncoded : (fuel : ℕ) (e : Encoder) → IsEncoded e → IsEncoded (emit_loop fuel e)
unfolding emit_loop
emit_loop-IsEncoded zero e h = h
emit_loop-IsEncoded (suc fuel) e h =
    ground (arith, emit_loop-IsEncoded fuel (emit e) (emit-IsEncoded e h))

take_byte-IsEncoded : (byte : ℕ) (e : Encoder) → IsEncoded e → IsEncoded (take_byte byte e)
unfolding take_byte
take_byte-IsEncoded byte e h =
    emit_loop-IsEncoded 2
      (record e { value = (e.value + byte * 2 ^ e.bits) % 2 ^ 64; bits = e.bits + 8 }) h

take_bytes-IsEncoded : (raw : List ℕ) → IsEncoded (take_bytes raw)
take_bytes-IsEncoded [] = unfold take_bytes in refl
take_bytes-IsEncoded (byte ∷ rest) =
    rw (take_bytes-cons byte rest)
      (take_byte-IsEncoded byte (take_bytes rest) (take_bytes-IsEncoded rest))

fill-all : (rounds : ℕ) (e : Encoder) → IsEncoded e → all in_crockford (fill rounds e) ≡ true
unfolding fill
fill-all zero e h = h
fill-all (suc rounds) e h = fill-all rounds (emit e) (emit-IsEncoded e h)

encode_crockford-all : (raw : List ℕ) → all in_crockford (encode_crockford raw) ≡ true
unfolding encode_crockford
encode_crockford-all raw =
    fill-all (ulid_len - length (take_bytes raw).out) (take_bytes raw) (take_bytes-IsEncoded raw)

-- The bits taken and not yet emitted, and those emitted, five to a digit.
abbrev bit_count : Encoder → ℕ
bit_count e = e.bits + 5 * length e.out

emit_loop-bits :
    (fuel : ℕ) (e : Encoder)
    → e.bits < 5 * fuel + 5
    → ((emit_loop fuel e).bits < 5) × (bit_count (emit_loop fuel e) ≡ bit_count e)
unfolding emit_loop
emit_loop-bits zero e h = (h, refl)
emit_loop-bits (suc fuel) e h = ground (arith, emit_loop-bits fuel (emit e))

take_byte-bits :
    (byte : ℕ) (e : Encoder)
    → e.bits < 5
    → ((take_byte byte e).bits < 5) × (bit_count (take_byte byte e) ≡ bit_count e + 8)
unfolding take_byte
take_byte-bits byte e h =
    let (small, same) =
      emit_loop-bits 2
        (record e { value = (e.value + byte * 2 ^ e.bits) % 2 ^ 64; bits = e.bits + 8 })
        (omega arith) in
    (small, omega arith)

take_bytes-bits :
    (raw : List ℕ) → ((take_bytes raw).bits < 5) × (bit_count (take_bytes raw) ≡ 8 * length raw)
take_bytes-bits [] = unfold take_bytes in (omega arith, refl)
take_bytes-bits (byte ∷ rest) =
    let (small, count) = take_bytes-bits rest in
    let (small', count') = take_byte-bits byte (take_bytes rest) small in
    rw (take_bytes-cons byte rest) (small', omega arith)

length-fill : (rounds : ℕ) (e : Encoder) → length (fill rounds e) ≡ rounds + length e.out
unfolding fill
length-fill zero e = omega arith
length-fill (suc rounds) e = omega (arith, length-fill rounds (emit e))

length-encode_crockford : (raw : List ℕ) → length raw ≡ 16 → length (encode_crockford raw) ≡ 26
length-encode_crockford raw h =
    unfold encode_crockford in
    omega (
      arith,
      take_bytes-bits raw,
      length-fill (ulid_len - length (take_bytes raw).out) (take_bytes raw),
    )

all-contains_small :
    (s : Text) (c : ℕ) → all (λ d. ltb d 128) s ≡ true → contains c s ≡ true → ltb c 128 ≡ true
all-contains_small [] c h k = cc
all-contains_small (d ∷ s) c h k = ground (arith, all-contains_small s c)

byte_len-crockford : (s : Text) → all in_crockford s ≡ true → byte_len s ≡ length s
byte_len-crockford [] h = refl
byte_len-crockford (c ∷ s) h =
    rw (all-contains_small crockford c refl (and_left _ _ h))
      (omega (arith, byte_len-crockford s (and_right _ _ h)))

cut-underscore : (s t : Text) → contains b'_' s ≡ false → cut (s ++ b'_' ∷ t) ≡ some (s, t)
unfolding cut
cut-underscore [] t h = refl
cut-underscore (c ∷ s) t h = ground (arith, cut-underscore s t)

length-millis_bytes :
    (millis : ℕ) (random : List ℕ)
    → length random ≡ 10
    → length (millis_bytes millis ++ random) ≡ 16
unfolding millis_bytes
length-millis_bytes millis random h = omega arith

abbrev body : ℕ → List ℕ → Text
body millis random = encode_crockford (millis_bytes millis ++ random)

new_id_at-nil : (millis : ℕ) (random : List ℕ) → new_id_at [] millis (some random) ≡ none
unfolding new_id_at text_beq
new_id_at-nil millis random = refl

new_id_at-cons :
    (c : ℕ) (kind : Kind) (millis : ℕ) (random : List ℕ)
    → new_id_at (c ∷ kind) millis (some random)
      ≡ some ((c ∷ kind ++ b'_' ∷ []) ++ body millis random)
unfolding new_id_at text_beq
new_id_at-cons c kind millis random = refl

new_id_at-parts :
    (kind : Kind) (millis : ℕ) (random : List ℕ) (id : StableId)
    → new_id_at kind millis (some random) ≡ some id
    → kind ++ b'_' ∷ body millis random ≡ id
new_id_at-parts [] millis random id e = cc (new_id_at-nil millis random)
new_id_at-parts (c ∷ kind) millis random id e =
    sym (append_assoc (c ∷ kind) (b'_' ∷ []) (body millis random))
    ∙ some-injective _ _ (sym (new_id_at-cons c kind millis random) ∙ e)

is_valid_parts-body :
    (kind : Kind) (millis : ℕ) (random : List ℕ)
    → length random ≡ 10
    → is_valid_parts kind (some (kind, body millis random)) ≡ true
unfolding is_valid_parts
is_valid_parts-body kind millis random ten =
    let digits = encode_crockford-all (millis_bytes millis ++ random) in
    let len =
      length-encode_crockford (millis_bytes millis ++ random)
        (length-millis_bytes millis random ten) in
    rw (==_refl kind) (rw (byte_len-crockford (body millis random) digits) (rw len digits))

-- An ID that `newIDAt` returns for a kind without an underscore, from ten bytes of entropy, is
-- valid for that kind, and its prefix is the kind.
pub new_id_at-is_valid :
    (kind : Kind) (millis : ℕ) (random : List ℕ) (id : StableId)
    → contains b'_' kind ≡ false
    → length random ≡ 10
    → new_id_at kind millis (some random) ≡ some id
    → (is_valid id kind ≡ true) × (kind_of id ≡ kind)
new_id_at-is_valid kind millis random id plain ten e =
    let found = cut-underscore kind (body millis random) plain in
    let made = new_id_at-parts kind millis random id e in
    (
      rw (← made) (unfold is_valid in rw found (is_valid_parts-body kind millis random ten)),
      rw (← made) (unfold kind_of in ap prefix_of found),
    )
