-- ===== src/Deletion.antt =====
-- internal/compiler/deletion.go: what a candidate spec deletes and what still refers to it. The
-- `%q` of `fmt` is the parameter `quote`.
pub mod Blockers
pub mod Validated
use gombit_forge.Prelude.{
  Bool, true, false, ◌&&◌, ◌||◌, Option, none, some, List, [], ◌∷◌, ◌++◌, length, ltb,
  if◌then◌else◌, ◌==◌, text_eq, Text, codes,
}
use gombit_forge.StableId.{StableId}
use gombit_forge.ProjectSpec.{
  ProjectSpec, Resource, Field, Page, DashboardConfig, DashboardCard, AggregateCard, is_belongs_to,
}

pub record DeletionBlocker : Type 0 where
  pub kind : Text
  pub entity : StableId
  pub owner : StableId
  pub message : Text

pub record DeletedResource : Type 0 where
  pub id : StableId
  pub code_name : Text
  pub label : Text
  pub blockers : List DeletionBlocker
  pub had_extension : Bool

-- len(d.Blockers) > 0
abbrev pub is_blocked : DeletedResource → Bool
is_blocked d = ltb 0 (length d.blockers)

abbrev pub still_references : Text
still_references = codes " still references "

module _ (quote : Text → Text) (deleted : Resource) where
  abbrev pub targets : Field → Bool
  targets f = is_belongs_to f.type && (f.target == deleted.id)

  abbrev field_blocker : Resource → Field → DeletionBlocker
  field_blocker r f = record {
    kind = codes "relationship";
    entity = f.id;
    owner = r.id;
    message =
        codes "relationship "
        ++ r.code_name
        ++ codes "."
        ++ f.code_name
        ++ codes " (belongs_to) still references "
        ++ deleted.code_name;
  }

  -- The loop over the fields of one resource.
  pub field_blockers : Resource → List (Option Field) → List DeletionBlocker
  field_blockers r [] = []
  field_blockers r (none ∷ rest) = field_blockers r rest
  field_blockers r (some f ∷ rest) =
      let blockers = field_blockers r rest in
      if targets f then field_blocker r f ∷ blockers else blockers

  pub relationship_blockers : List (Option Resource) → List DeletionBlocker
  unfolding field_blockers
  relationship_blockers [] = []
  relationship_blockers (none ∷ rest) = relationship_blockers rest
  relationship_blockers (some r ∷ rest) = field_blockers r r.fields ++ relationship_blockers rest

  abbrev card_blocker : Page → Text → DeletionBlocker
  card_blocker p label = record {
    kind = codes "dashboard_card";
    entity = p.id;
    owner = [];
    message =
        codes "dashboard card "
        ++ quote label
        ++ codes " on page "
        ++ quote p.slug
        ++ still_references
        ++ deleted.code_name;
  }

  pub card_blockers : Page → List DashboardCard → List DeletionBlocker
  card_blockers p [] = []
  card_blockers p (card ∷ rest) =
      let blockers = card_blockers p rest in
      if card.resource == deleted.id then card_blocker p card.label ∷ blockers else blockers

  pub aggregate_blockers : Page → List AggregateCard → List DeletionBlocker
  aggregate_blockers p [] = []
  aggregate_blockers p (card ∷ rest) =
      let blockers = aggregate_blockers p rest in
      if card.resource == deleted.id then card_blocker p card.label ∷ blockers else blockers

  pub dashboard_blockers : Page → Option DashboardConfig → List DeletionBlocker
  unfolding card_blockers aggregate_blockers
  dashboard_blockers p none = []
  dashboard_blockers p (some d) =
      card_blockers p (d.count_cards ++ d.recent_lists) ++ aggregate_blockers p d.aggregate_cards

  abbrev page_blocker : Page → List DeletionBlocker
  page_blocker p =
      if p.resource == deleted.id
      then record {
        kind = codes "page";
        entity = p.id;
        owner = [];
        message = codes "page " ++ quote p.slug ++ still_references ++ deleted.code_name;
      }
        ∷ []
      else []

  -- The loop over the pages.
  pub page_blockers : List (Option Page) → List DeletionBlocker
  unfolding dashboard_blockers
  page_blockers [] = []
  page_blockers (none ∷ rest) = page_blockers rest
  page_blockers (some p ∷ rest) =
      page_blocker p ++ (dashboard_blockers p p.dashboard ++ page_blockers rest)

  unfoldable pub blockers_for : Option ProjectSpec → List DeletionBlocker
  unfolding relationship_blockers page_blockers
  blockers_for none = []
  blockers_for (some candidate) =
      relationship_blockers candidate.resources ++ page_blockers candidate.pages

-- surviving[id], over the resources of the candidate
abbrev pub has_id : StableId → List (Option Resource) → Bool
has_id id [] = false
has_id id (none ∷ rest) = has_id id rest
has_id id (some r ∷ rest) = (r.id == id) || has_id id rest

abbrev pub is_surviving : Option ProjectSpec → StableId → Bool
is_surviving none id = false
is_surviving (some candidate) id = has_id id candidate.resources

module _ (quote : Text → Text) where
  abbrev pub deleted_resource : Option ProjectSpec → Resource → DeletedResource
  deleted_resource candidate r = record {
    id = r.id;
    code_name = r.code_name;
    label = r.label;
    blockers = blockers_for quote r candidate;
    had_extension = ltb 0 (length r.hooks);
  }

  pub deletions_in : Option ProjectSpec → List (Option Resource) → List DeletedResource
  deletions_in candidate [] = []
  deletions_in candidate (none ∷ rest) = deletions_in candidate rest
  deletions_in candidate (some r ∷ rest) =
      let deletions = deletions_in candidate rest in
      if is_surviving candidate r.id then deletions else deleted_resource candidate r ∷ deletions

  unfoldable pub analyze_deletions : Option ProjectSpec → Option ProjectSpec → List DeletedResource
  unfolding deletions_in
  analyze_deletions none candidate = []
  analyze_deletions (some current) candidate = deletions_in candidate current.resources

unfoldable pub blocked_deletions : List DeletedResource → List DeletedResource
blocked_deletions [] = []
blocked_deletions (d ∷ rest) =
    let blocked = blocked_deletions rest in if is_blocked d then d ∷ blocked else blocked
