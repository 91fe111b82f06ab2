-- ===== src/Mint.antt =====
-- internal/spec/mint.go: allocating a frozen source symbol for an entity. The ledger is there (the
-- source refuses a nil one); `unicode.IsLetter` is the parameter `is_letter`.
pub mod Search
pub mod Outcome
pub mod Frozen
use gombit_forge.Prelude.{
  ℕ, zero, suc, ◌+◌, Bool, true, false, not, ◌&&◌, ◌||◌, Option, none, some, List, [], ◌∷◌, ◌++◌,
  ltb, if◌then◌else◌, ◌==◌, text_eq, Text, codes,
}
use gombit_forge.Prelude.Assoc.{Assoc, lookup}
use gombit_forge.Prelude.Decimal.{itoa}
use gombit_forge.Prelude.Result.{Result, ok, err}
use gombit_forge.Normalize.{normalize}
use gombit_forge.StableId.{
  StableId, Kind, kind_of, kind_project, kind_resource, kind_field, kind_relation, kind_page,
  kind_action, kind_hook, kind_nav,
}
use gombit_forge.Ledger.{
  Ledger, LedgerError, Namespace, symbols, entry_at, owned_live, is_free, is_live, owner_of,
  record_symbol,
}

abbrev pub max_mint_attempts : ℕ
max_mint_attempts = 1000

abbrev kind_fallbacks : Assoc Kind Text
kind_fallbacks =
    (kind_project, codes "Project")
    ∷ (kind_resource, codes "Resource")
    ∷ (kind_field, codes "Field")
    ∷ (kind_relation, codes "Relation")
    ∷ (kind_page, codes "Page")
    ∷ (kind_action, codes "Action")
    ∷ (kind_hook, codes "Hook")
    ∷ (kind_nav, codes "Nav")
    ∷ []

abbrev text_or_empty : Option Text → Text
text_or_empty none = []
text_or_empty (some s) = s

-- kindFallback[kind], the empty text for an unknown kind
unfoldable pub kind_fallback : Kind → Text
kind_fallback kind = text_or_empty (lookup kind kind_fallbacks)

pub data MintError : Type 0 where
  unrepresentable exhausted not_frozen : MintError

abbrev same_owner : StableId → Option StableId → Bool
same_owner entity none = false
same_owner entity (some owner) = owner == entity

-- The symbol is live and owned by the entity.
unfoldable pub owns : Ledger → Namespace → StableId → Text → Bool
owns l ns entity symbol = same_owner entity (owner_of l ns symbol) && is_live l ns symbol

-- The first loop of `Mint`, over `l.Symbols(ns)`.
unfoldable pub find_owned : Ledger → Namespace → StableId → List Text → Option Text
find_owned l ns entity [] = none
find_owned l ns entity (symbol ∷ rest) =
    if owns l ns entity symbol then some symbol else find_owned l ns entity rest

-- reserved != nil && reserved(candidate)
abbrev pub is_reserved : Option (Text → Bool) → Text → Bool
is_reserved none candidate = false
is_reserved (some reserved) candidate = reserved candidate

unfoldable pub candidate : Text → ℕ → Text
candidate base n = if ltb 1 n then base ++ itoa n else base

-- Both `continue`s of the second loop.
unfoldable pub is_blocked : Ledger → Namespace → Option (Text → Bool) → Text → Bool
is_blocked l ns reserved symbol = not (is_free l ns symbol) || is_reserved reserved symbol

-- The second loop of `Mint`, with `rounds` left: the first candidate that is not skipped.
unfoldable pub first_available :
    Ledger → Namespace → Option (Text → Bool) → Text → ℕ → ℕ → Option Text
first_available l ns reserved base zero n = none
first_available l ns reserved base (suc rounds) n =
    elim (is_blocked l ns reserved (candidate base n)) [
      | true ↦ first_available l ns reserved base rounds (n + 1)
      | false ↦ some (candidate base n)
    ]

-- `l.Record` of the candidate that was found, and the return.
unfoldable pub frozen : Text → Result LedgerError Ledger → Result MintError (Text × Ledger)
frozen symbol (ok l) = ok (symbol, l)
frozen symbol (err e) = err not_frozen

unfoldable pub freeze :
    Ledger → Namespace → StableId → Option Text → Result MintError (Text × Ledger)
unfolding frozen
freeze l ns entity none = err exhausted
freeze l ns entity (some symbol) = frozen symbol (record_symbol l ns symbol entity)

-- What follows the choice of `base`.
unfoldable pub mint_from :
    Ledger → Namespace → StableId → Option (Text → Bool) → Text → Result MintError (Text × Ledger)
mint_from l ns entity reserved base =
    if base == []
    then err unrepresentable
    else freeze l ns entity (first_available l ns reserved base max_mint_attempts 1)

abbrev pub or_text : Text → Option Text → Text
or_text fallback none = fallback
or_text fallback (some s) = s

-- What follows the first loop.
unfoldable pub mint_new :
    (ℕ → Bool)
    → Ledger
    → Namespace
    → Text
    → StableId
    → Option (Text → Bool)
    → Result MintError (Text × Ledger)
mint_new is_letter l ns label entity reserved =
    mint_from l ns entity reserved
      (or_text (kind_fallback (kind_of entity)) (normalize is_letter label))

-- The return inside the first loop, or what follows it.
unfoldable pub owned_or :
    Ledger → Option Text → Result MintError (Text × Ledger) → Result MintError (Text × Ledger)
owned_or l (some symbol) rest = ok (symbol, l)
owned_or l none rest = rest

unfoldable pub mint :
    (ℕ → Bool)
    → Ledger
    → Namespace
    → Text
    → StableId
    → Option (Text → Bool)
    → Result MintError (Text × Ledger)
unfolding owned_or
mint is_letter l ns label entity reserved =
    owned_or l (find_owned l ns entity (symbols l ns))
      (mint_new is_letter l ns label entity reserved)
