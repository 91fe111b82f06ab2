-- ===== src/Examples/Symbols.antt =====
-- The ledger and the symbols that are minted in it.
use gombit_forge.Prelude.{
  ℕ, ◌≡◌, ◌↔◌, refl, Bool, true, false, ◌&&◌, ◌⊎◌, none, some, [], ◌∷◌, is_some, contains, Text,
  text_beq, text_eq, ◌==◌, codes,
}
use gombit_forge.Prelude.Assoc.{lookup, put}
use gombit_forge.Prelude.Order.{sort, insert_sorted, text_ltb, IsSorted}
use gombit_forge.Prelude.Decimal.{itoa}
use gombit_forge.Prelude.Result.{ok}
use gombit_forge.Names.{is_go_keyword}
use gombit_forge.Normalize.{normalize}
use gombit_forge.StableId.{StableId, kind_of}
use gombit_forge.Ledger.{
  Ledger, Entry, Namespace, live, namespace_resource, entry_at, record_symbol, tombstone_entity,
  unmarshal_json, namespaces, symbols, table_of, set_entry, is_free, is_live, owner_of,
}
use gombit_forge.Ledger.History.{Kept, Reach, here, next, deleted, Reach-Kept}
use gombit_forge.Ledger.Deletion.{DistinctKeys, Retires, tombstone_entity-Retires}
use gombit_forge.Ledger.Valid.{IsWellFormed, Step-IsWellFormed}
use gombit_forge.Ledger.Load.{IsKnown, unmarshal_json-IsKnown}
use gombit_forge.Ledger.Walk.{walk_complete}
use gombit_forge.Mint.{
  mint, owns, mint_new, mint_from, freeze, first_available, is_blocked, candidate, find_owned,
}
use gombit_forge.Mint.Outcome.{mint-ok, mint_base, IsNew}
use gombit_forge.Mint.Frozen.{mint-mint, mint_live}

abbrev order_id : StableId
order_id = codes "res_1"

abbrev line_id : StableId
line_id = codes "res_2"

abbrev order_entry : Entry
order_entry = record { status = live; entity_id = order_id }

abbrev ledger : Ledger
ledger = record { namespaces = (codes "resource", (codes "Order", order_entry) ∷ []) ∷ [] }

order_recorded : entry_at ledger namespace_resource (codes "Order") ≡ some order_entry
unfolding entry_at lookup text_beq table_of
order_recorded = refl

Reach-Kept_example :
    Kept (tombstone_entity ledger order_id).1 namespace_resource (codes "Order") order_entry
Reach-Kept_example =
    Reach-Kept ledger (tombstone_entity ledger order_id).1 namespace_resource (codes "Order")
      order_entry (next here (deleted order_id)) order_recorded

keys_distinct : DistinctKeys ledger.namespaces
unfolding lookup
keys_distinct = (refl, (refl, tt), tt)

tombstone_entity-Retires_example : Retires ledger order_id (tombstone_entity ledger order_id)
tombstone_entity-Retires_example = tombstone_entity-Retires ledger order_id keys_distinct

ledger-IsWellFormed : IsWellFormed ledger
unfolding text_beq
ledger-IsWellFormed = record { distinct = keys_distinct; loadable = refl }

Step-IsWellFormed_example : IsWellFormed (tombstone_entity ledger order_id).1
Step-IsWellFormed_example =
    Step-IsWellFormed {l = ledger} {l' = (tombstone_entity ledger order_id).1} (deleted order_id) tt
      ledger-IsWellFormed

unmarshal_json-IsKnown_example : (unmarshal_json ledger.namespaces ≡ some ledger) ↔ (
    (ledger.namespaces ≡ ledger.namespaces)
    × ((ns : Namespace) (symbol : Text) (e : Entry)
        → entry_at ledger ns symbol ≡ some e
        → IsKnown e))
unmarshal_json-IsKnown_example = unmarshal_json-IsKnown ledger.namespaces ledger keys_distinct

walk_complete_example :
    IsSorted text_ltb (namespaces ledger)
    × (contains namespace_resource (namespaces ledger)
        ≡ is_some (lookup namespace_resource ledger.namespaces))
    × IsSorted text_ltb (symbols ledger namespace_resource)
    × (contains (codes "Order") (symbols ledger namespace_resource)
        ≡ is_some (entry_at ledger namespace_resource (codes "Order")))
walk_complete_example = walk_complete ledger namespace_resource (codes "Order")

-- No character beyond ASCII is a letter.
abbrev no_letter : ℕ → Bool
no_letter c = false

abbrev two_symbols : Ledger
two_symbols = record {
  namespaces =
      (
        codes "resource",
        (codes "Order", order_entry)
            ∷ (codes "Order2", record { status = live; entity_id = line_id })
            ∷ [],
      )
      ∷ [];
}

second_order :
    mint no_letter ledger namespace_resource (codes "order") line_id none
    ≡ ok (codes "Order2", two_symbols)
unfolding mint mint_new mint_from freeze first_available is_blocked candidate find_owned owns
    symbols record_symbol set_entry is_free is_live owner_of entry_at table_of lookup put text_beq
    sort insert_sorted text_ltb normalize is_go_keyword kind_of itoa
second_order = refl

mint-mint_example :
    mint no_letter two_symbols namespace_resource (codes "line") line_id none
    ≡ ok (codes "Order2", two_symbols)
mint-mint_example =
    mint-mint ledger namespace_resource line_id none no_letter (codes "order") (codes "line")
      (codes "Order2") none two_symbols second_order

mint-ok_example :
    (owns ledger namespace_resource line_id (codes "Order2") ≡ true) × (two_symbols ≡ ledger)
    ⊎ IsNew ledger namespace_resource line_id none
        (mint_base no_letter (codes "order") line_id)
        (codes "Order2")
        two_symbols
mint-ok_example =
    mint-ok ledger namespace_resource line_id none no_letter (codes "order") (codes "Order2")
      two_symbols second_order

mint_live_example :
    (owns two_symbols namespace_resource line_id (codes "Order2") ≡ true)
    × ((ns' : Namespace) (s : Text)
        → (namespace_resource == ns' && codes "Order2" == s) ≡ false
        → entry_at two_symbols ns' s ≡ entry_at ledger ns' s)
    × Reach ledger two_symbols
mint_live_example =
    mint_live ledger namespace_resource line_id none no_letter (codes "order") (codes "Order2")
      two_symbols second_order
