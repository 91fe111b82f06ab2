-- ===== src/Prelude/Assoc.antt =====
-- Go maps as association lists: a write replaces the entry of its key or adds one.
use mathlib.Core.Path.{◌≡◌, refl, ap, ◌∙◌}
use mathlib.Core.Bool.{Bool, true}
use mathlib.Core.Option
use mathlib.Core.Option.{Option, none, some}
use mathlib.Core.List.{List, [], ◌∷◌}
use native.Mathlib.Omega.{arith}
use gombit_forge.Prelude.Tests.{if◌then◌else◌, is_some}
use gombit_forge.Prelude.Equality.{Eq, ◌==◌}
use gombit_forge.Prelude.Lists.{all, contains}

abbrev pub Assoc {ℓ κ} : Type ℓ → Type κ → Type (ℓ ⊔ κ)
Assoc K V = List (K × V)

abbrev pub keys {ℓ κ} : {K : Type ℓ} {V : Type κ} → Assoc K V → List K
keys [] = []
keys ((k, v) ∷ m) = k ∷ keys m

abbrev pub map_values {ℓ κ} : {K : Type ℓ} {V : Type κ} → (V → V) → Assoc K V → Assoc K V
map_values f [] = []
map_values f ((k, v) ∷ m) = (k, f v) ∷ map_values f m

module _ {ℓ κ} {K : Type ℓ} {V : Type κ} ⦃e : Eq K⦄ where
  -- m[k], with the `ok` of the two-value form as the constructor
  unfoldable pub lookup : K → Assoc K V → Option V
  lookup k [] = none
  lookup k ((j, v) ∷ m) = if j == k then some v else lookup k m

  -- m[k] = v
  unfoldable pub put : K → V → Assoc K V → Assoc K V
  put k v [] = (k, v) ∷ []
  put k v ((j, w) ∷ m) = if j == k then (k, v) ∷ m else (j, w) ∷ put k v m

  -- no key stands twice
  abbrev pub NodupKeys : Assoc K V → Type κ
  NodupKeys [] = Unit
  NodupKeys ((k, _) ∷ m) = (lookup k m ≡ none) × NodupKeys m

  pub lookup-nil : (j : K) → ◌≡◌ {A = Option V} (lookup j []) none
  unfolding lookup
  lookup-nil j = refl

  pub lookup-cons :
      (j k : K) (v : V) (m : Assoc K V)
      → lookup j ((k, v) ∷ m) ≡ (if k == j then some v else lookup j m)
  unfolding lookup
  lookup-cons j k v m = refl

  pub lookup-head : (k : K) (v : V) (m : Assoc K V) → lookup k ((k, v) ∷ m) ≡ some v
  unfolding lookup
  lookup-head k v m = ground (arith, e.beq_iff k k)

  -- An entry behind another key.
  pub lookup-later :
      (j k : K) (v w : V) (m : Assoc K V)
      → lookup j m ≡ none
      → lookup k m ≡ some w
      → lookup k ((j, v) ∷ m) ≡ some w
  unfolding lookup
  lookup-later j k v w m fresh found = ground (arith, e.beq_iff j k)

  pub lookup-put :
      (j k : K) (v : V) (m : Assoc K V)
      → lookup j (put k v m) ≡ (if k == j then some v else lookup j m)
  unfolding lookup put
  lookup-put j k v [] = refl
  lookup-put j k v ((i, w) ∷ m) =
      ground (arith, e.beq_iff k j, e.beq_iff i k, e.beq_iff i j, lookup-put j k v m)

  pub put-NodupKeys : (k : K) (v : V) (m : Assoc K V) → NodupKeys m → NodupKeys (put k v m)
  unfolding lookup put
  put-NodupKeys k v [] h = (refl, tt)
  put-NodupKeys k v ((j, w) ∷ m) (fresh, u) =
      ground (arith, e.beq_iff j k, e.beq_iff k j, put-NodupKeys k v m u, lookup-put j k v m)

  pub lookup-map_values :
      (f : V → V) (k : K) (m : Assoc K V) → lookup k (map_values f m) ≡ Option.map f (lookup k m)
  unfolding lookup
  lookup-map_values f k [] = refl
  lookup-map_values f k ((j, v) ∷ m) = ground (arith, lookup-map_values f k m)

  pub map_values-NodupKeys : (f : V → V) (m : Assoc K V) → NodupKeys m → NodupKeys (map_values f m)
  map_values-NodupKeys f [] h = tt
  map_values-NodupKeys f ((k, v) ∷ m) (fresh, u) =
      (lookup-map_values f k m ∙ ap (Option.map f) fresh, map_values-NodupKeys f m u)

  pub contains-keys : (k : K) (m : Assoc K V) → contains k (keys m) ≡ is_some (lookup k m)
  unfolding lookup
  contains-keys k [] = refl
  contains-keys k ((j, w) ∷ m) = ground (arith, contains-keys k m)

  pub all-put :
      (p : V → Bool) (k : K) (v : V) (m : Assoc K V)
      → all (λ (entry : K × V). p entry.1) m ≡ true
      → p v ≡ true
      → all (λ (entry : K × V). p entry.1) (put k v m) ≡ true
  unfolding put
  all-put p k v [] h pv = ground arith
  all-put p k v ((j, w) ∷ m) h pv = ground (arith, all-put p k v m)

  pub all-lookup :
      (p : V → Bool) (k : K) (v : V) (m : Assoc K V)
      → all (λ (entry : K × V). p entry.1) m ≡ true
      → lookup k m ≡ some v
      → p v ≡ true
  unfolding lookup
  all-lookup p k v [] h found = cc
  all-lookup p k v ((j, w) ∷ m) h found = ground (arith, all-lookup p k v m)
