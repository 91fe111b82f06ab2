-- ===== src/Ledger.antt =====
-- internal/spec/ledger.go: the history of generated source symbols, per namespace. The ledger is a
-- value here, so that `Clone` is the value itself; a nil map and an empty one are one value.
pub mod Laws
pub mod Valid
pub mod Load
pub mod History
pub mod Deletion
pub mod Walk
use gombit_forge.Prelude.{
  Bool, true, false, not, ◌&&◌, ◌||◌, Option, none, some, List, [], ◌∷◌, ◌++◌, if◌then◌else◌,
  is_some, all, ◌==◌, text_eq, Text, codes,
}
use gombit_forge.Prelude.Assoc.{Assoc, lookup, put, keys, map_values}
use gombit_forge.Prelude.Order.{sort, text_ltb}
use gombit_forge.Prelude.Result.{Result, ok, err}
use gombit_forge.StableId.{StableId}

-- `unknown` is any other text that a persisted file may hold.
pub data SymbolStatus : Type 0 where
  live tombstoned : SymbolStatus
  unknown : Text → SymbolStatus

abbrev pub Namespace : Type 0
Namespace = Text

abbrev pub namespace_resource : Namespace
namespace_resource = codes "resource"

unfoldable pub field_namespace : StableId → Namespace
field_namespace resource = codes "fields:" ++ resource

pub data LedgerError : Type 0 where
  symbol_taken symbol_not_live : LedgerError

pub record Entry : Type 0 where
  pub status : SymbolStatus
  pub entity_id : StableId

abbrev pub Table : Type 0
Table = Assoc Text Entry

pub record Ledger : Type 0 where
  pub namespaces : Assoc Namespace Table

abbrev pub new_ledger : Ledger
new_ledger = record { namespaces = [] }

abbrev pub or_empty : Option Table → Table
or_empty none = []
or_empty (some table) = table

-- l.namespaces[ns], empty if there is none
unfoldable pub table_of : Ledger → Namespace → Table
table_of l ns = or_empty (lookup ns l.namespaces)

-- l.namespaces[ns][symbol]
unfoldable pub entry_at : Ledger → Namespace → Text → Option Entry
entry_at l ns symbol = lookup symbol (table_of l ns)

abbrev pub is_live_status : SymbolStatus → Bool
is_live_status live = true
is_live_status _ = false

abbrev pub is_tombstoned_status : SymbolStatus → Bool
is_tombstoned_status tombstoned = true
is_tombstoned_status _ = false

abbrev status_of : Option Entry → Option SymbolStatus
status_of none = none
status_of (some e) = some e.status

unfoldable pub status : Ledger → Namespace → Text → Option SymbolStatus
status l ns symbol = status_of (entry_at l ns symbol)

unfoldable pub is_free : Ledger → Namespace → Text → Bool
unfolding status
is_free l ns symbol = not (is_some (status l ns symbol))

abbrev holds : (SymbolStatus → Bool) → Option SymbolStatus → Bool
holds p none = false
holds p (some s) = p s

unfoldable pub is_live : Ledger → Namespace → Text → Bool
unfolding status
is_live l ns symbol = holds is_live_status (status l ns symbol)

unfoldable pub is_tombstoned : Ledger → Namespace → Text → Bool
unfolding status
is_tombstoned l ns symbol = holds is_tombstoned_status (status l ns symbol)

abbrev owner : Option Entry → Option StableId
owner none = none
owner (some e) = some e.entity_id

unfoldable pub owner_of : Ledger → Namespace → Text → Option StableId
owner_of l ns symbol = owner (entry_at l ns symbol)

-- l.namespaces[ns][symbol] = e, the table made if there is none
unfoldable pub set_entry : Ledger → Namespace → Text → Entry → Ledger
set_entry l ns symbol e = record { namespaces = put ns (put symbol e (table_of l ns)) l.namespaces }

-- `Record`
unfoldable pub record_symbol : Ledger → Namespace → Text → StableId → Result LedgerError Ledger
unfolding set_entry entry_at table_of
record_symbol l ns symbol entity =
    if is_some (entry_at l ns symbol)
    then err symbol_taken
    else ok (set_entry l ns symbol (record { status = live; entity_id = entity }))

-- The entry that `retire` writes: the owner stays.
abbrev pub retired : Entry → Entry
retired e = record e { status = tombstoned }

tombstone_entry : Ledger → Namespace → Text → Option Entry → Result LedgerError Ledger
tombstone_entry l ns symbol none = err symbol_not_live
tombstone_entry l ns symbol (some e) =
    if is_live_status e.status then ok (set_entry l ns symbol (retired e)) else err symbol_not_live

unfoldable pub tombstone : Ledger → Namespace → Text → Result LedgerError Ledger
unfolding tombstone_entry set_entry entry_at table_of
tombstone l ns symbol = tombstone_entry l ns symbol (entry_at l ns symbol)

-- The test of `UnmarshalJSON` on an entry.
abbrev pub is_loadable_entry : Entry → Bool
is_loadable_entry e =
    (is_live_status e.status || is_tombstoned_status e.status) && not (e.entity_id == [])

abbrev pub is_loadable_table : Table → Bool
is_loadable_table = all (λ (entry : Text × Entry). is_loadable_entry entry.1)

-- `UnmarshalJSON` after the decoder has made the maps.
pub unmarshal_json : Assoc Namespace Table → Option Ledger
unmarshal_json raw =
    if all (λ (entry : Namespace × Table). is_loadable_table entry.1) raw
    then some (record { namespaces = raw })
    else none

-- The sorted keys.
unfoldable pub namespaces : Ledger → List Namespace
namespaces l = sort text_ltb (keys l.namespaces)

unfoldable pub symbols : Ledger → Namespace → List Text
symbols l ns = sort text_ltb (keys (table_of l ns))

pub record TombstonedSymbol : Type 0 where
  pub namespace : Namespace
  pub symbol : Text

abbrev pub symbol_less : TombstonedSymbol → TombstonedSymbol → Bool
symbol_less a b =
    if a.namespace == b.namespace
    then text_ltb a.symbol b.symbol
    else text_ltb a.namespace b.namespace

-- e.EntityID == entityID && e.Status == SymbolLive
abbrev pub owned_live : StableId → Entry → Bool
owned_live entity e = e.entity_id == entity && is_live_status e.status

pub retire_owned : StableId → Entry → Entry
retire_owned entity e = if owned_live entity e then retired e else e

-- The symbols that the loop over one table appends, and those of the loop over all tables. The
-- loops write only to the key that they visit, so that each sees the entry as it was.
pub retired_in : StableId → Namespace → Table → List TombstonedSymbol
retired_in entity ns [] = []
retired_in entity ns ((symbol, e) ∷ table) =
    let rest = retired_in entity ns table in
    if owned_live entity e then record { namespace = ns; symbol = symbol } ∷ rest else rest

pub retired_all : StableId → Assoc Namespace Table → List TombstonedSymbol
unfolding retired_in
retired_all entity [] = []
retired_all entity ((ns, table) ∷ rest) = retired_in entity ns table ++ retired_all entity rest

-- `TombstoneEntity`
pub tombstone_entity : Ledger → StableId → List TombstonedSymbol × Ledger
unfolding retired_all retire_owned
tombstone_entity l entity = (
  sort symbol_less (retired_all entity l.namespaces),
  record { namespaces = map_values (map_values (retire_owned entity)) l.namespaces },
)
