-- ===== src/Ledger/Walk.antt =====
-- `Namespaces` and `Symbols`: a sorted walk that meets every recorded symbol.
use gombit_forge.Prelude.{◌≡◌, ◌∙◌, contains, is_some, Text, text_eq}
use gombit_forge.Prelude.Assoc.{lookup, keys, contains-keys}
use gombit_forge.Prelude.Order.{any-sort, IsSorted, sort-IsSorted, text_ltb, text_ltb_asymm}
use gombit_forge.Ledger.{Ledger, Namespace, table_of, entry_at, namespaces, symbols}

-- `Namespaces` is sorted and holds exactly the namespaces with a table, and `Symbols` is sorted and
-- holds exactly the recorded symbols of its namespace, whatever their status.
pub walk_complete :
    (l : Ledger) (ns : Namespace) (symbol : Text)
    → IsSorted text_ltb (namespaces l)
      × (contains ns (namespaces l) ≡ is_some (lookup ns l.namespaces))
      × IsSorted text_ltb (symbols l ns)
      × (contains symbol (symbols l ns) ≡ is_some (entry_at l ns symbol))
unfolding namespaces symbols entry_at
walk_complete l ns symbol = (
  sort-IsSorted text_ltb text_ltb_asymm (keys l.namespaces),
  any-sort text_ltb _ (keys l.namespaces) ∙ contains-keys ns l.namespaces,
  sort-IsSorted text_ltb text_ltb_asymm (keys (table_of l ns)),
  any-sort text_ltb _ (keys (table_of l ns)) ∙ contains-keys symbol (table_of l ns),
)
