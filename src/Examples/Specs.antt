-- ===== src/Examples/Specs.antt =====
-- A spec with one resource, and a change of its symbol.
use gombit_forge.Prelude.{
  ℕ, ◌≡◌, ◌↔◌, refl, sym, ap, Bool, true, false, not, ◌&&◌, Option, none, some, some-injective,
  List, [], ◌∷◌, all, contains, Text, text_beq, text_eq, codes,
}
use gombit_forge.Prelude.Assoc.{lookup, put}
use gombit_forge.Prelude.Int.{pos}
use gombit_forge.Prelude.Result.{ok}
use gombit_forge.Names.{is_go_keyword, is_exported_go_ident}
use gombit_forge.Normalize.{normalize}
use gombit_forge.StableId.{StableId, kind_of}
use gombit_forge.Ledger.{
  Ledger, live, tombstoned, record_symbol, set_entry, is_free, is_live, entry_at, table_of,
  tombstone, status,
}
use gombit_forge.Ledger.History.{Reach}
use gombit_forge.Mint.{candidate}
use gombit_forge.ProjectSpec.{ProjectSpec, Resource, DatabaseDriver, AuthMode, find_resource_in}
use gombit_forge.ProjectSpec.Codec.{
  JsonCodec, IsFaithful, clone, marshal, unmarshal, encoded, decoded,
}
use gombit_forge.Lineage.{is_discontinuous, check_lineage, ids}
use gombit_forge.Lineage.Continuity.{has_identity, Loses, check_lineage-reports}
use gombit_forge.Refactor.{
  refactor_code_name, refreeze, set_code_name, set_resource_code, validate_new_symbol,
  locate_symbol, cloned, located, retire_old, has_field,
}
use gombit_forge.Refactor.Located.{KindsDiffer}
use gombit_forge.Refactor.Outcome.{Refactored, refactor_code_name-Refactored}
use gombit_forge.Refactor.Drift.{
  normalize_identifiers, normalize_resources, normalized_symbol, refreeze_to, target_loop,
  normalize_fields,
}
use gombit_forge.Refactor.Drift.Identity.{forget}
use gombit_forge.Refactor.Drift.Outcome.{normalize_identifiers_outcome, normalize_identifiers_twice}
use gombit_forge.Deletion.{is_blocked, deleted_resource, blocked_deletions, analyze_deletions}
use gombit_forge.Deletion.Blockers.{
  is_nonempty, refers, may_go, is_blocked-refers, blocked_deletions-analyze_deletions,
}

abbrev order_id : StableId
order_id = codes "res_1"

abbrev order : Text → Resource
order code_name = record {
  id = order_id;
  label = codes "order";
  label_plural = codes "orders";
  code_name = code_name;
  storage_name = codes "orders";
  fields = [];
  behavior = record {
    create_enabled = true;
    update_enabled = true;
    delete_enabled = true;
    admin_visible = true;
    list_fields = [];
    searchable_fields = [];
    sortable_fields = [];
    filterable_fields = [];
    aggregatable_fields = [];
  };
  hooks = [];
}

abbrev spec_of : List (Option Resource) → ProjectSpec
spec_of resources = record {
  spec_version = pos 1;
  project = record {
    id = codes "prj_1";
    name = codes "shop";
    slug = codes "shop";
    label = codes "Shop";
  };
  database = DatabaseDriver.postgres;
  auth = AuthMode.cookie;
  resources = resources;
  pages = [];
  navigation = [];
  branding = none;
}

abbrev shop : Text → ProjectSpec
shop code_name = spec_of (some (order code_name) ∷ [])

abbrev empty_spec : ProjectSpec
empty_spec = spec_of []

-- A codec of the specs `shop name`.
abbrev name_of : List (Option Resource) → Text
name_of (some r ∷ rest) = r.code_name
name_of _ = []

abbrev shop_codec : JsonCodec
shop_codec = record { encode = λ s. some (name_of s.resources); decode = λ t. some (shop t) }

abbrev old_shop : ProjectSpec
old_shop = shop (codes "Old")

abbrev new_shop : ProjectSpec
new_shop = shop (codes "Order")

old_shop-IsFaithful : IsFaithful shop_codec old_shop
old_shop-IsFaithful = record {
  decode-encode = λ written e. ap (λ t. some (shop t)) (sym (some-injective _ _ e));
}

old_shop_cloned : clone shop_codec old_shop ≡ ok old_shop
unfolding clone marshal unmarshal encoded decoded
old_shop_cloned = refl

new_shop_cloned : clone shop_codec new_shop ≡ ok new_shop
unfolding clone marshal unmarshal encoded decoded
new_shop_cloned = refl

check_lineage-reports_example :
    ((id : StableId)
      → (contains id (ids (check_lineage (some old_shop) (some empty_spec)).removed)
          ≡ (has_identity id (some old_shop) && not (has_identity id (some empty_spec))))
        × (contains id (ids (check_lineage (some old_shop) (some empty_spec)).added)
            ≡ (has_identity id (some empty_spec) && not (has_identity id (some old_shop)))))
    × ((is_discontinuous (check_lineage (some old_shop) (some empty_spec)) ≡ true)
        ↔ (Loses (some old_shop) (some empty_spec) × Loses (some empty_spec) (some old_shop)))
check_lineage-reports_example = check_lineage-reports (some old_shop) (some empty_spec)

abbrev ledger : Ledger
ledger = record {
  namespaces =
      (codes "resource", (codes "Old", record { status = live; entity_id = order_id }) ∷ []) ∷ [];
}

abbrev moved : Ledger
moved = record {
  namespaces =
      (
        codes "resource",
        (codes "Old", record { status = tombstoned; entity_id = order_id })
            ∷ (codes "Order", record { status = live; entity_id = order_id })
            ∷ [],
      )
      ∷ [];
}

-- No character beyond ASCII is a letter.
abbrev no_letter : ℕ → Bool
no_letter c = false

order_kind : KindsDiffer old_shop order_id
unfolding kind_of text_beq
order_kind e = cc

refactored :
    refactor_code_name shop_codec old_shop ledger order_id (codes "Order") ≡ ok (new_shop, moved)
unfolding refactor_code_name locate_symbol text_beq kind_of find_resource_in validate_new_symbol
    is_exported_go_ident is_go_keyword is_free entry_at lookup table_of clone set_code_name refreeze
    record_symbol is_live tombstone set_entry status put decoded encoded marshal unmarshal cloned
    has_field located retire_old set_resource_code
refactored = refl

refactor_code_name-Refactored_example :
    Refactored old_shop ledger order_id (codes "Order") new_shop moved
refactor_code_name-Refactored_example =
    refactor_code_name-Refactored shop_codec ledger order_id (codes "Order") old_shop new_shop moved
      old_shop-IsFaithful order_kind refactored

normalized : normalize_identifiers no_letter shop_codec old_shop ledger ≡ ok (new_shop, moved)
unfolding normalize_identifiers cloned clone normalized_symbol refreeze_to text_beq normalize
    is_go_keyword target_loop candidate gombit_forge.Mint.is_blocked is_free entry_at lookup
    table_of refreeze record_symbol is_live tombstone set_entry status put decoded encoded marshal
    unmarshal normalize_fields normalize_resources retire_old kind_of
normalized = refl

normalize_identifiers_outcome_example :
    (forget new_shop ≡ forget old_shop)
    × (check_lineage (some old_shop) (some new_shop) ≡ record { removed = []; added = [] })
    × Reach ledger moved
normalize_identifiers_outcome_example =
    normalize_identifiers_outcome no_letter shop_codec old_shop new_shop ledger moved
      old_shop-IsFaithful normalized

normalize_identifiers_twice_example :
    normalize_identifiers no_letter shop_codec new_shop moved ≡ ok (new_shop, moved)
normalize_identifiers_twice_example =
    normalize_identifiers_twice no_letter shop_codec old_shop new_shop ledger moved
      old_shop-IsFaithful normalized new_shop_cloned

abbrev plain_quote : Text → Text
plain_quote s = s

is_blocked-refers_example :
    is_blocked (deleted_resource plain_quote (some empty_spec) (order (codes "Old")))
    ≡ refers order_id empty_spec
is_blocked-refers_example = is_blocked-refers plain_quote empty_spec (order (codes "Old"))

blocked_deletions-analyze_deletions_example :
    is_nonempty
      (blocked_deletions (analyze_deletions plain_quote (some old_shop) (some empty_spec)))
    ≡ not (all (may_go empty_spec) old_shop.resources)
blocked_deletions-analyze_deletions_example =
    blocked_deletions-analyze_deletions plain_quote old_shop empty_spec
