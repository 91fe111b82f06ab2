-- ===== src/Refactor/Outcome.antt =====
-- What `RefactorCodeName` returns.
use mathlib.Core.Path.{subst}
use gombit_forge.Prelude.{
  ◌≡◌, refl, sym, ap, ◌∙◌, true, false, none, arith, ◌==◌, text_eq, text_beq_iff, Text,
}
use gombit_forge.Prelude.Result.{Result, ok, err, ok-injective, ◌>>=◌, >>=-eq-ok}
use gombit_forge.Names.{is_exported_go_ident}
use gombit_forge.StableId.{StableId}
use gombit_forge.Ledger.{Ledger, entry_at}
use gombit_forge.Ledger.Laws.{is_free_lem}
use gombit_forge.Mint.{is_reserved}
use gombit_forge.ProjectSpec.{ProjectSpec}
use gombit_forge.ProjectSpec.Codec.{JsonCodec, CodecError, IsFaithful, clone, clone-ok}
use gombit_forge.Refactor.{
  RefactorError, SymbolLocation, locate_symbol, validate_new_symbol, set_code_name, refreeze,
  cloned, refactor_code_name,
}
use gombit_forge.Refactor.Freeze.{Refrozen, refreeze-Refrozen}
use gombit_forge.Refactor.Located.{KindsDiffer, set_code_name_back}

-- The checks that `validateNewSymbol` makes.
record IsAllowed (loc : SymbolLocation) (new : Text) (ledger : Ledger) : Type 0 where
  changes : (loc.current == new) ≡ false
  exported : is_exported_go_ident new ≡ true
  unreserved : is_reserved loc.reserved new ≡ false
  free : entry_at ledger loc.namespace new ≡ none

validate_new_symbol-ok :
    (loc : SymbolLocation) (new : Text) (ledger : Ledger) (u : Unit {0})
    → validate_new_symbol loc new ledger ≡ ok u
    → IsAllowed loc new ledger
unfolding validate_new_symbol
validate_new_symbol-ok loc new ledger u h = record {
  changes = ground (arith, text_beq_iff new loc.current, text_beq_iff loc.current new);
  exported = ground arith;
  unreserved = ground arith;
  free = ground (arith, is_free_lem ledger loc.namespace new);
}

-- A successful refactor: the symbol is a legal one that was free, the ledger has moved from the old
-- symbol to it, the entity is located with it in the new spec, and putting the old symbol back
-- restores the spec.
pub record Refactored (s : ProjectSpec) (ledger : Ledger) (id : StableId) (new : Text)
    (s' : ProjectSpec) (ledger' : Ledger) : Type 0 where
  pub location : SymbolLocation
  pub found : locate_symbol s id ≡ ok location
  pub exported : is_exported_go_ident new ≡ true
  pub unreserved : is_reserved location.reserved new ≡ false
  pub was_free : entry_at ledger location.namespace new ≡ none
  pub frozen : Refrozen ledger location.namespace location.current new id ledger'
  pub renamed : set_code_name s id new ≡ ok s'
  pub carried : locate_symbol s' id ≡ ok (record location { current = new })
  pub restored : set_code_name s' id location.current ≡ ok s

pub cloned-ok :
    (r : Result CodecError ProjectSpec) (copy : ProjectSpec) → cloned r ≡ ok copy → r ≡ ok copy
unfolding cloned
cloned-ok (ok s) copy h = ap ok (ok-injective s copy h)
cloned-ok (err e) copy h = cc

module _ (codec : JsonCodec) (ledger : Ledger) (id : StableId) (new : Text) where
  -- The steps of `RefactorCodeName` after the location and after the clone.
  abbrev finish : SymbolLocation → ProjectSpec → Result RefactorError (ProjectSpec × Ledger)
  finish loc copy = set_code_name copy id new >>= λ renamed.
      ok (renamed, refreeze ledger loc.namespace loc.current new id)

  abbrev resume : ProjectSpec → SymbolLocation → Result RefactorError (ProjectSpec × Ledger)
  resume s loc = validate_new_symbol loc new ledger >>= λ _. cloned (clone codec s) >>= finish loc

  refactored :
      (s renamed : ProjectSpec) (loc : SymbolLocation)
      → locate_symbol s id ≡ ok loc
      → KindsDiffer s id
      → IsAllowed loc new ledger
      → set_code_name s id new ≡ ok renamed
      → Refactored s ledger id new renamed (refreeze ledger loc.namespace loc.current new id)
  refactored s renamed loc found differ allowed set =
      let (s'', set'', back, now) = set_code_name_back s id new loc found differ in
      record {
        location = loc;
        found = found;
        exported = allowed.exported;
        unreserved = allowed.unreserved;
        was_free = allowed.free;
        frozen =
            refreeze-Refrozen ledger loc.namespace loc.current new id allowed.changes allowed.free;
        renamed = set;
        carried =
            ap (λ (x : ProjectSpec). locate_symbol x id)
              (sym (ok-injective s'' renamed (sym set'' ∙ set)))
            ∙ now;
        restored =
            subst (λ (x : ProjectSpec). set_code_name x id loc.current ≡ ok s)
              (ok-injective s'' renamed (sym set'' ∙ set)) back;
      }

  refactor_code_name_lem :
      (s : ProjectSpec)
      → refactor_code_name codec s ledger id new ≡ (locate_symbol s id >>= resume s)
  unfolding refactor_code_name
  refactor_code_name_lem s = refl

  -- A successful `RefactorCodeName`, for an ID that is not both a resource's and a field's: the new
  -- symbol is an exported identifier, not reserved and free; in the ledger it is live for the entity
  -- and the old symbol is not live any more, with every other entry as it was; in the new spec the
  -- entity is located in the same namespace with the new symbol; and the new spec differs in that
  -- symbol alone, since setting the old symbol again restores the spec.
  pub refactor_code_name-Refactored :
      (s s' : ProjectSpec) (ledger' : Ledger)
      → IsFaithful codec s
      → KindsDiffer s id
      → refactor_code_name codec s ledger id new ≡ ok (s', ledger')
      → Refactored s ledger id new s' ledger'
  refactor_code_name-Refactored s s' ledger' faithful differ h =
      let (loc, found, h1) =
        >>=-eq-ok (locate_symbol s id) (resume s) (sym (refactor_code_name_lem s) ∙ h) in
      let (u, checked, h2) =
        >>=-eq-ok (validate_new_symbol loc new ledger) (λ _. cloned (clone codec s) >>= finish loc)
          h1 in
      let (copy, copied, h3) = >>=-eq-ok (cloned (clone codec s)) (finish loc) h2 in
      let (renamed, set, h4) =
        >>=-eq-ok (set_code_name copy id new)
          (λ renamed. ok (renamed, refreeze ledger loc.namespace loc.current new id)) h3 in
      let same : copy ≡ s =
        (clone-ok codec s copy faithful (cloned-ok (clone codec s) copy copied)).0 in
      let set' : set_code_name s id new ≡ ok renamed =
        subst (λ c. set_code_name c id new ≡ ok renamed) same set in
      let allowed : IsAllowed loc new ledger = validate_new_symbol-ok loc new ledger u checked in
      let pair : ◌≡◌ {A = ProjectSpec × Ledger}
          (renamed, refreeze ledger loc.namespace loc.current new id) (s', ledger') =
        ok-injective _ _ h4 in
      subst (λ (p : ProjectSpec × Ledger). Refactored s ledger id new p.0 p.1) pair
        (refactored s renamed loc found differ allowed set')
