-- ===== src/Ledger/Deletion.antt =====
-- `TombstoneEntity`: which symbols it retires and which it reports.
use mathlib.Core.Option
use mathlib.Core.Path.{subst}
use gombit_forge.Prelude.{
  Bool, true, false, ◌&&◌, ℕ, if◌then◌else◌, count, count-append, ◌≡◌, refl, sym, ap, ◌∙◌, Option,
  none, some, List, [], ◌∷◌, arith, any, any-append, ◌==◌, text_eq, text_beq_iff, Text,
}
use gombit_forge.Prelude.Assoc.{Assoc, lookup, NodupKeys, lookup-cons, lookup-nil}
use gombit_forge.Prelude.Order.{sort, any-sort, count-sort, IsSorted, sort-IsSorted, text_ltb_asymm}
use gombit_forge.StableId.{StableId}
use gombit_forge.Ledger.{
  Ledger, Entry, Table, Namespace, or_empty, table_of, entry_at, owned_live, retire_owned,
  retired_in, retired_all, tombstone_entity, TombstonedSymbol, symbol_less,
}
use gombit_forge.Ledger.Laws.{entry_at-tombstone_entity}

abbrev pub names : Namespace → Text → TombstonedSymbol → Bool
names ns symbol t = t.namespace == ns && t.symbol == symbol

-- Is the symbol in the list?
abbrev pub lists : Namespace → Text → List TombstonedSymbol → Bool
lists ns symbol = any (names ns symbol)

abbrev pub owned_live_at : StableId → Option Entry → Bool
owned_live_at entity none = false
owned_live_at entity (some e) = owned_live entity e

-- No key stands twice, in the ledger and in its tables.
abbrev pub DistinctKeys : Assoc Namespace Table → Type 0
DistinctKeys [] = Unit
DistinctKeys ((ns, table) ∷ rest) = (lookup ns rest ≡ none) × NodupKeys table × DistinctKeys rest

lists-retired_in :
    (entity : StableId) (ns ns' : Namespace) (symbol : Text) (table : Table)
    → NodupKeys table
    → lists ns symbol (retired_in entity ns' table)
      ≡ (ns' == ns && owned_live_at entity (lookup symbol table))
unfolding retired_in lookup
lists-retired_in entity ns ns' symbol [] h = ground arith
lists-retired_in entity ns ns' symbol ((s, e) ∷ table) (fresh, u) =
    ground (arith, text_beq_iff s symbol, lists-retired_in entity ns ns' symbol table u)

lists-retired_all :
    (entity : StableId) (ns : Namespace) (symbol : Text) (tables : Assoc Namespace Table)
    → DistinctKeys tables
    → lists ns symbol (retired_all entity tables)
      ≡ owned_live_at entity (lookup symbol (or_empty (lookup ns tables)))
unfolding retired_all
lists-retired_all entity ns symbol [] h = unfold lookup in refl
lists-retired_all entity ns symbol ((n, table) ∷ tables) (fresh, distinct, rest) = ground (
  arith,
  text_beq_iff n ns,
  any-append (names ns symbol) (retired_in entity n table) (retired_all entity tables),
  lists-retired_in entity n ns symbol table distinct,
  lists-retired_in entity ns n symbol table distinct,
  lists-retired_all entity ns symbol tables rest,
  lookup-cons ns n table tables,
  lookup-nil {V = Entry} symbol,
)

-- Once or not at all.
abbrev pub times : Bool → ℕ
times b = if b then 1 else 0

count-retired_in :
    (entity : StableId) (ns ns' : Namespace) (symbol : Text) (table : Table)
    → NodupKeys table
    → count (names ns symbol) (retired_in entity ns' table)
      ≡ times (ns' == ns && owned_live_at entity (lookup symbol table))
unfolding retired_in lookup
count-retired_in entity ns ns' symbol [] h = ground arith
count-retired_in entity ns ns' symbol ((s, e) ∷ table) (fresh, u) =
    ground (arith, text_beq_iff s symbol, count-retired_in entity ns ns' symbol table u)

count-retired_all :
    (entity : StableId) (ns : Namespace) (symbol : Text) (tables : Assoc Namespace Table)
    → DistinctKeys tables
    → count (names ns symbol) (retired_all entity tables)
      ≡ times (owned_live_at entity (lookup symbol (or_empty (lookup ns tables))))
unfolding retired_all
count-retired_all entity ns symbol [] h = unfold lookup in refl
count-retired_all entity ns symbol ((n, table) ∷ tables) (fresh, distinct, rest) = ground (
  arith,
  text_beq_iff n ns,
  count-append (names ns symbol) (retired_in entity n table) (retired_all entity tables),
  count-retired_in entity ns n symbol table distinct,
  count-retired_all entity ns symbol tables rest,
  lookup-cons ns n table tables,
  lookup-nil {V = Entry} symbol,
)

symbol_less_asymm : (a b : TombstonedSymbol) → symbol_less a b ≡ true → symbol_less b a ≡ false
symbol_less_asymm a b h = ground (
  arith,
  text_beq_iff a.namespace b.namespace,
  text_beq_iff b.namespace a.namespace,
  text_ltb_asymm a.symbol b.symbol,
  text_ltb_asymm a.namespace b.namespace,
)

owned_live-retire_owned :
    (entity : StableId) (o : Option Entry)
    → owned_live_at entity (Option.map (retire_owned entity) o) ≡ false
unfolding retire_owned
owned_live-retire_owned entity none = refl
owned_live-retire_owned entity (some e) = ground arith

-- `TombstoneEntity` reports a symbol exactly when it was live and owned by the entity, and then
-- once, reports in order, and leaves no live symbol of the entity.
pub record Retires (l : Ledger) (entity : StableId) (result : List TombstonedSymbol × Ledger)
    : Type 0 where
  pub reports :
      (ns : Namespace) (symbol : Text)
      → lists ns symbol result.0 ≡ owned_live_at entity (entry_at l ns symbol)
  pub once :
      (ns : Namespace) (symbol : Text)
      → count (names ns symbol) result.0 ≡ times (owned_live_at entity (entry_at l ns symbol))
  pub ordered : IsSorted symbol_less result.0
  pub none_left :
      (ns : Namespace) (symbol : Text) → owned_live_at entity (entry_at result.1 ns symbol) ≡ false
  pub others_kept :
      (ns : Namespace) (symbol : Text)
      → owned_live_at entity (entry_at l ns symbol) ≡ false
      → entry_at result.1 ns symbol ≡ entry_at l ns symbol

retire_owned_other :
    (entity : StableId) (o : Option Entry)
    → owned_live_at entity o ≡ false
    → Option.map (retire_owned entity) o ≡ o
unfolding retire_owned
retire_owned_other entity none h = refl
retire_owned_other entity (some e) h = ground arith

reported :
    (l : Ledger) (entity : StableId)
    → (tombstone_entity l entity).0 ≡ sort symbol_less (retired_all entity l.namespaces)
unfolding tombstone_entity
reported l entity = refl

-- In a ledger with distinct keys, deleting an entity reports exactly its live symbols, each once
-- and in order, leaves none of its symbols live and changes no symbol that was not a live one of the entity.
pub tombstone_entity-Retires :
    (l : Ledger) (entity : StableId)
    → DistinctKeys l.namespaces
    → Retires l entity (tombstone_entity l entity)
tombstone_entity-Retires l entity h = record {
  reports = λ ns symbol.
      ap (lists ns symbol) (reported l entity)
      ∙ any-sort symbol_less (names ns symbol) (retired_all entity l.namespaces)
      ∙ unfold entry_at table_of in lists-retired_all entity ns symbol l.namespaces h;
  once = λ ns symbol.
      ap (count (names ns symbol)) (reported l entity)
      ∙ count-sort symbol_less (names ns symbol) (retired_all entity l.namespaces)
      ∙ unfold entry_at table_of in count-retired_all entity ns symbol l.namespaces h;
  ordered =
      subst (IsSorted symbol_less) (sym (reported l entity))
        (sort-IsSorted symbol_less symbol_less_asymm (retired_all entity l.namespaces));
  none_left = λ ns symbol.
      ap (owned_live_at entity) (entry_at-tombstone_entity l entity ns symbol)
      ∙ owned_live-retire_owned entity (entry_at l ns symbol);
  others_kept = λ ns symbol other.
      entry_at-tombstone_entity l entity ns symbol
      ∙ retire_owned_other entity (entry_at l ns symbol) other;
}
