-- ===== src/ProjectSpec/Codec.antt =====
-- internal/spec/codec.go: `Marshal` and `Unmarshal` around the JSON encoder, which is a parameter,
-- and `Clone` of internal/spec/spec.go, a round trip through both. `canonical` replaces nil slices
-- by empty ones, which are one list here.
use gombit_forge.Prelude.{
  ◌≡◌, refl, sym, ap, ◌∙◌, Bool, true, false, Option, none, some, Text, nat_beq, arith,
  if◌then◌else◌, Bool-cases, inl, inr,
}
use gombit_forge.Prelude.Int.{ℤ, pos, negsuc}
use gombit_forge.Prelude.Result.{Result, ok, err, ◌>>=◌, ok-injective}
use gombit_forge.ProjectSpec.{ProjectSpec}

-- encoding/json on a canonical spec, with unknown fields refused by the decoder.
pub record JsonCodec : Type 0 where
  pub encode : ProjectSpec → Option Text
  pub decode : Text → Option ProjectSpec

-- What the spec is encoded to decodes to the spec, as the package documents for structs of exported
-- fields.
pub record IsFaithful (c : JsonCodec) (s : ProjectSpec) : Type 0 where
  pub decode-encode : (data' : Text) → c.encode s ≡ some data' → c.decode data' ≡ some s

pub data CodecError : Type 0 where
  not_encoded not_decoded unsupported_version : CodecError

abbrev is_version : ℤ → Bool
is_version (pos n) = nat_beq n 1
is_version (negsuc n) = false

unfoldable pub encoded : Option Text → Result CodecError Text
encoded none = err not_encoded
encoded (some data') = ok data'

unfoldable pub marshal : JsonCodec → ProjectSpec → Result CodecError Text
unfolding encoded
marshal c s = encoded (c.encode s)

unfoldable pub decoded : Option ProjectSpec → Result CodecError ProjectSpec
decoded none = err not_decoded
decoded (some s) = if is_version s.spec_version then ok s else err unsupported_version

unfoldable pub unmarshal : JsonCodec → Text → Result CodecError ProjectSpec
unfolding decoded
unmarshal c data' = decoded (c.decode data')

unfoldable pub clone : JsonCodec → ProjectSpec → Result CodecError ProjectSpec
unfolding marshal unmarshal
clone c s = marshal c s >>= unmarshal c

is_version-one : (v : ℤ) → is_version v ≡ true → v ≡ pos 1
is_version-one (pos n) h = ground arith
is_version-one (negsuc n) h = cc

encoded-ok :
    (o : Option Text) (c : JsonCodec) (s s' : ProjectSpec)
    → IsFaithful c s
    → c.encode s ≡ o
    → (encoded o >>= unmarshal c) ≡ ok s'
    → decoded (some s) ≡ ok s'
encoded-ok none c s s' f e h = unfold encoded in cc
encoded-ok (some data') c s s' f e h =
    ap decoded (sym (f.decode-encode data' e)) ∙ unfold encoded unmarshal in h

decoded-ok : (s s' : ProjectSpec) → decoded (some s) ≡ ok s' → (s' ≡ s) × (s.spec_version ≡ pos 1)
unfolding decoded
decoded-ok s s' h = elim (Bool-cases (is_version s.spec_version)) [
  | inl known ↦ (sym (ok-injective s s' (rw known at h)), is_version-one s.spec_version known)
  | inr other ↦ let e : decoded (some s) ≡ err unsupported_version = rw other in cc
]

-- A clone is the spec itself, and only a spec of the version that the package knows is cloned.
pub clone-ok :
    (c : JsonCodec) (s s' : ProjectSpec)
    → IsFaithful c s
    → clone c s ≡ ok s'
    → (s' ≡ s) × (s.spec_version ≡ pos 1)
unfolding clone
clone-ok c s s' f h = decoded-ok s s' (encoded-ok (c.encode s) c s s' f refl h)
