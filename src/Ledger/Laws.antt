-- ===== src/Ledger/Laws.antt =====
-- What each operation of the ledger does to every symbol.
use mathlib.Core.Option
use gombit_forge.Prelude.{
  Bool, true, false, not, ◌&&◌, ◌≡◌, refl, sym, ap, ◌∙◌, Option, none, some, arith, if◌then◌else◌,
  is_some, Option-cases, inl, inr, ◌==◌, text_eq, text_beq_iff, Text,
}
use gombit_forge.Prelude.Assoc.{lookup, put, map_values, lookup-put, lookup-map_values}
use gombit_forge.Prelude.Result.{ok, err}
use gombit_forge.StableId.{StableId}
use gombit_forge.Ledger.{
  Ledger, Entry, Table, Namespace, live, symbol_taken, or_empty, table_of, entry_at, set_entry,
  record_symbol, retired, tombstone_entry, tombstone, retire_owned, tombstone_entity,
  is_live_status, is_live, owner_of, is_free,
}

record_symbol_lem :
    (l : Ledger) (ns : Namespace) (symbol : Text) (entity : StableId)
    → record_symbol l ns symbol entity ≡ (
        if is_some (entry_at l ns symbol)
        then err symbol_taken
        else ok (set_entry l ns symbol (record { status = live; entity_id = entity })))
unfolding record_symbol
record_symbol_lem l ns symbol entity = refl

tombstone_lem :
    (l : Ledger) (ns : Namespace) (symbol : Text)
    → tombstone l ns symbol ≡ tombstone_entry l ns symbol (entry_at l ns symbol)
unfolding tombstone
tombstone_lem l ns symbol = refl

tombstone_entry-ok :
    (l : Ledger) (ns : Namespace) (symbol : Text) (o : Option Entry) {l' : Ledger}
    → tombstone_entry l ns symbol o ≡ ok l'
    → (e : Entry) × (o ≡ some e) × (e.status ≡ live) × (l' ≡ set_entry l ns symbol (retired e))
unfolding tombstone_entry
tombstone_entry-ok l ns symbol none h = cc
tombstone_entry-ok l ns symbol (some e) h = (e, refl, ground arith, ground arith)

pub record_symbol-taken :
    (l : Ledger) (ns : Namespace) (symbol : Text) (entity : StableId) (e : Entry)
    → entry_at l ns symbol ≡ some e
    → record_symbol l ns symbol entity ≡ err symbol_taken
record_symbol-taken l ns symbol entity e found = record_symbol_lem l ns symbol entity ∙ rw found

pub record_symbol-free :
    (l : Ledger) (ns : Namespace) (symbol : Text) (entity : StableId)
    → entry_at l ns symbol ≡ none
    → record_symbol l ns symbol entity
      ≡ ok (set_entry l ns symbol (record { status = live; entity_id = entity }))
record_symbol-free l ns symbol entity free = record_symbol_lem l ns symbol entity ∙ rw free

pub table_of-set_entry :
    (l : Ledger) (ns ns' : Namespace) (symbol : Text) (e : Entry)
    → table_of (set_entry l ns symbol e) ns'
      ≡ (if ns == ns' then put symbol e (table_of l ns) else table_of l ns')
unfolding table_of set_entry
table_of-set_entry l ns ns' symbol e = rw lookup-put (ground arith)

-- A write changes its own entry and no other.
pub entry_at-set_entry :
    (l : Ledger) (ns ns' : Namespace) (symbol symbol' : Text) (e : Entry)
    → entry_at (set_entry l ns symbol e) ns' symbol'
      ≡ (if ns == ns' && symbol == symbol' then some e else entry_at l ns' symbol')
unfolding entry_at
entry_at-set_entry l ns ns' symbol symbol' e =
    rw table_of-set_entry
      (ground (arith, text_beq_iff ns ns', lookup-put symbol' symbol e (table_of l ns)))

or_empty-map :
    (f : Entry → Entry) (o : Option Table)
    → or_empty (Option.map (map_values f) o) ≡ map_values f (or_empty o)
or_empty-map f none = refl
or_empty-map f (some table) = refl

namespaces-tombstone_entity :
    (l : Ledger) (entity : StableId) (ns : Namespace)
    → lookup ns (tombstone_entity l entity).1.namespaces
      ≡ Option.map (map_values (retire_owned entity)) (lookup ns l.namespaces)
unfolding tombstone_entity
namespaces-tombstone_entity l entity ns =
    lookup-map_values (map_values (retire_owned entity)) ns l.namespaces

pub table_of-tombstone_entity :
    (l : Ledger) (entity : StableId) (ns : Namespace)
    → table_of (tombstone_entity l entity).1 ns ≡ map_values (retire_owned entity) (table_of l ns)
unfolding table_of
table_of-tombstone_entity l entity ns =
    ap or_empty (namespaces-tombstone_entity l entity ns)
    ∙ or_empty-map (retire_owned entity) (lookup ns l.namespaces)

-- Deleting an entity retires its live entries where they stand, and changes no other entry.
pub entry_at-tombstone_entity :
    (l : Ledger) (entity : StableId) (ns : Namespace) (symbol : Text)
    → entry_at (tombstone_entity l entity).1 ns symbol
      ≡ Option.map (retire_owned entity) (entry_at l ns symbol)
unfolding entry_at
entry_at-tombstone_entity l entity ns symbol =
    ap (lookup symbol) (table_of-tombstone_entity l entity ns)
    ∙ lookup-map_values (retire_owned entity) symbol (table_of l ns)

-- A recorded symbol was free, and the new ledger differs in its entry alone.
pub record_symbol-ok :
    (l : Ledger) (ns : Namespace) (symbol : Text) (entity : StableId) {l' : Ledger}
    → record_symbol l ns symbol entity ≡ ok l'
    → (entry_at l ns symbol ≡ none)
      × (l' ≡ set_entry l ns symbol (record { status = live; entity_id = entity }))
record_symbol-ok l ns symbol entity h = elim (Option-cases (entry_at l ns symbol)) [
  | inl (e, found) ↦ cc (record_symbol-taken l ns symbol entity e found)
  | inr free ↦ (free, cc (record_symbol-free l ns symbol entity free))
]

-- A symbol that was retired was live, and keeps its owner.
pub tombstone-ok :
    (l : Ledger) (ns : Namespace) (symbol : Text) {l' : Ledger}
    → tombstone l ns symbol ≡ ok l'
    → (e : Entry) × (entry_at l ns symbol ≡ some e)
      × (e.status ≡ live)
      × (l' ≡ set_entry l ns symbol (retired e))
tombstone-ok l ns symbol h =
    tombstone_entry-ok l ns symbol (entry_at l ns symbol) (sym (tombstone_lem l ns symbol) ∙ h)

abbrev pub live_at : Option Entry → Bool
live_at none = false
live_at (some e) = is_live_status e.status

abbrev pub owner_at : Option Entry → Option StableId
owner_at none = none
owner_at (some e) = some e.entity_id

pub is_live_lem :
    (l : Ledger) (ns : Namespace) (symbol : Text)
    → is_live l ns symbol ≡ live_at (entry_at l ns symbol)
unfolding is_live
is_live_lem l ns symbol = ground arith

pub owner_of_lem :
    (l : Ledger) (ns : Namespace) (symbol : Text)
    → owner_of l ns symbol ≡ owner_at (entry_at l ns symbol)
unfolding owner_of
owner_of_lem l ns symbol = ground arith

pub is_free_lem :
    (l : Ledger) (ns : Namespace) (symbol : Text)
    → is_free l ns symbol ≡ not (is_some (entry_at l ns symbol))
unfolding is_free
is_free_lem l ns symbol = ground arith

tombstone_entry-live :
    (l : Ledger) (ns : Namespace) (symbol : Text) (e : Entry)
    → is_live_status e.status ≡ true
    → tombstone_entry l ns symbol (some e) ≡ ok (set_entry l ns symbol (retired e))
unfolding tombstone_entry
tombstone_entry-live l ns symbol e h = rw h

pub tombstone-live :
    (l : Ledger) (ns : Namespace) (symbol : Text) (e : Entry)
    → entry_at l ns symbol ≡ some e
    → is_live_status e.status ≡ true
    → tombstone l ns symbol ≡ ok (set_entry l ns symbol (retired e))
tombstone-live l ns symbol e found is_live' =
    tombstone_lem l ns symbol
    ∙ ap (tombstone_entry l ns symbol) found
    ∙ tombstone_entry-live l ns symbol e is_live'
