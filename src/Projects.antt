-- ===== src/Projects.antt =====
-- controlplane/internal/project/{service,models}.go: projects and their append-only revisions.
-- `fault` tells that the database fails the call, and `now` is the time of it. Parameters are the
-- JSON codec, the digest of SHA-256 in hexadecimal and `ClassifyEdit` of internal/compiler. Each
-- call is one transaction, which holds the project's row where the code locks it.
pub mod Chain
pub mod History
pub mod Head
use gombit_forge.Prelude.{
  ℕ, suc, ◌+◌, Bool, true, false, not, ◌&&◌, ◌||◌, Option, none, some, List, [], ◌∷◌, ◌++◌, any,
  keep, if◌then◌else◌, nat_beq, ◌==◌, text_eq, Text, codes,
}
use gombit_forge.Prelude.Int.{ℤ}
use gombit_forge.Prelude.Decimal.{itoa}
use gombit_forge.Prelude.Result.{Result, ok, err, ◌>>=◌}
use gombit_forge.ProjectSpec.{ProjectSpec}
use gombit_forge.ProjectSpec.Codec.{JsonCodec, CodecError, marshal, unmarshal}
use gombit_forge.Validate.{Diagnostic}
use gombit_forge.Validate.Fields.{is_empty}
use gombit_forge.Validate.Whole.{validate}

pub record Project : Type 0 where
  pub id : ℕ
  pub organization_id : ℕ
  pub name : Text
  pub slug : Text
  pub head_revision_id : Option ℕ
  pub cloud_project_id : Option Text
  pub created_by : ℕ

pub record Revision : Type 0 where
  pub id : ℕ
  pub project_id : ℕ
  pub spec_version : ℤ
  pub spec_json : Text
  pub spec_hash : Text
  pub parent_revision_id : Option ℕ
  pub created_by : ℕ
  pub created_at : ℕ

-- What the service puts in an audit event.
pub record Event : Type 0 where
  pub organization_id : ℕ
  pub actor_user_id : ℕ
  pub action : Text
  pub target_type : Text
  pub target_id : Text

pub record Store : Type 0 where
  pub next_project : ℕ
  pub next_revision : ℕ
  pub projects : List Project
  pub revisions : List Revision
  pub audit : List Event

pub data Class : Type 0 where
  class_neutral class_additive class_breaking : Class

pub record Transition : Type 0 where
  pub class : Class
  pub fingerprint : Text
  pub reasons : List Text

pub data ProjectError : Type 0 where
  project_not_found storage not_classified : ProjectError
  invalid_spec_error : List Diagnostic → ProjectError
  corrupt_lineage : ℕ → ℕ → ProjectError
  codec_failed : CodecError → ProjectError

pub data CandidateResult : Type 0 where
  committed : Revision → Option Transition → CandidateResult
  invalid_spec : List Diagnostic → CandidateResult
  breaking : Transition → CandidateResult

abbrev is_same_slug : ℕ → Text → Project → Bool
is_same_slug org slug p = nat_beq p.organization_id org && (p.slug == slug)

-- `CreateProject`; the slug is unique in the organization.
unfoldable pub create_project :
    Bool → ℕ → Text → Text → ℕ → Store → Result ProjectError Project × Store
create_project fault org name slug by s =
    if fault || any (is_same_slug org slug) s.projects
    then (err storage, s)
    else let p : Project = record {
      id = s.next_project;
      organization_id = org;
      name = name;
      slug = slug;
      head_revision_id = none;
      cloud_project_id = none;
      created_by = by;
    } in
      (
        ok p,
        record s {
          next_project = suc s.next_project;
          projects = s.projects ++ (p ∷ []);
          audit =
              s.audit
              ++ (record {
                organization_id = org;
                actor_user_id = by;
                action = codes "project.created";
                target_type = codes "project";
                target_id = itoa p.id;
              }
                  ∷ []);
        },
      )

-- `ListProjects`, of rows in the order of their keys
unfoldable pub list_projects : Bool → ℕ → Store → Result ProjectError (List Project)
list_projects fault org s =
    if fault then err storage else ok (keep (λ p. nat_beq p.organization_id org) s.projects)

unfoldable pub find_project : List Project → ℕ → Option Project
find_project [] id = none
find_project (p ∷ ps) id = if nat_beq p.id id then some p else find_project ps id

abbrev pub project_or_error : Option Project → Result ProjectError Project
project_or_error none = err project_not_found
project_or_error (some p) = ok p

-- `GetProject`, and the locked read of a row
unfoldable pub get_project : Bool → ℕ → Store → Result ProjectError Project
get_project fault id s =
    if fault then err storage else project_or_error (find_project s.projects id)

unfoldable pub find_revision : List Revision → ℕ → Option Revision
find_revision [] id = none
find_revision (r ∷ rs) id = if nat_beq r.id id then some r else find_revision rs id

-- `Revision`
abbrev pub revision : Bool → ℕ → Store → Result ProjectError (Option Revision)
revision fault id s = if fault then err storage else ok (find_revision s.revisions id)

abbrev pub head_or_error : Project → ℕ → Option Revision → Result ProjectError (Option Revision)
head_or_error p head none = err (corrupt_lineage p.id head)
head_or_error p head (some r) = ok (some r)

abbrev pub head_at : Bool → Store → Project → Option ℕ → Result ProjectError (Option Revision)
head_at fault s p none = ok none
head_at fault s p (some head) = revision fault head s >>= head_or_error p head

-- `Head`
unfoldable pub head : Bool → ℕ → Store → Result ProjectError (Option Revision)
head fault id s = get_project fault id s >>= λ p. head_at fault s p p.head_revision_id

unfoldable pub set_head : ℕ → ℕ → List Project → List Project
set_head id to [] = []
set_head id to (p ∷ ps) =
    let rest = set_head id to ps in
    if nat_beq p.id id then record p { head_revision_id = some to } ∷ rest else p ∷ rest

abbrev pub new_revision : ℕ → Project → ℤ → Text → Text → ℕ → Store → Revision
new_revision now p version canonical hash by s = record {
  id = s.next_revision;
  project_id = p.id;
  spec_version = version;
  spec_json = canonical;
  spec_hash = hash;
  parent_revision_id = p.head_revision_id;
  created_by = by;
  created_at = now;
}

-- `insertRevisionLocked`: the row, the head of the project and the audit event.
unfoldable pub insert_revision : Project → Revision → Store → Store
insert_revision p r s = record s {
  next_revision = suc s.next_revision;
  projects = set_head p.id r.id s.projects;
  revisions = s.revisions ++ (r ∷ []);
  audit =
      s.audit
      ++ (record {
        organization_id = p.organization_id;
        actor_user_id = r.created_by;
        action = codes "spec.revision.created";
        target_type = codes "revision";
        target_id = itoa r.id;
      }
          ∷ []);
}

abbrev pub codec_result {ℓ} : {A : Type ℓ} → Result CodecError A → Result ProjectError A
codec_result (ok a) = ok a
codec_result (err e) = err (codec_failed e)

module _ (codec : JsonCodec) (digest : Text → Text)
    (classify : ProjectSpec → ProjectSpec → Option Transition) where
  abbrev decoded_head : Option Revision → Result ProjectError (Option ProjectSpec)
  decoded_head none = ok none
  decoded_head (some r) = codec_result (unmarshal codec r.spec_json) >>= λ spec. ok (some spec)

  -- The current spec that `withLockedSpec` loads.
  abbrev pub current_spec : Bool → Store → Project → Result ProjectError (Option ProjectSpec)
  current_spec fault s p = head_at fault s p p.head_revision_id >>= λ found. decoded_head found

  -- What the code stores of a spec: its encoding and the hash of that.
  abbrev pub canonical : ProjectSpec → Result ProjectError (Text × Text)
  canonical spec = codec_result (marshal codec spec) >>= λ data'. ok (data', digest data')

  abbrev pub classified : Option ProjectSpec → ProjectSpec → Result ProjectError (Option Transition)
  classified none candidate = ok none
  classified (some current) candidate = elim (classify current candidate) [
    | none ↦ err not_classified
    | some t ↦ ok (some t)
  ]

  -- A neutral or additive transition, and a first revision, are appended.
  unfoldable pub commit :
      Project → Revision → Store → Option Transition → Result ProjectError CandidateResult × Store
  commit p r s none = (ok (committed r none), insert_revision p r s)
  commit p r s (some t) = elim t.class [
    | class_breaking ↦ (ok (breaking t), s)
    | _ ↦ (ok (committed r (some t)), insert_revision p r s)
  ]

  abbrev pub commit_or_error :
      ℕ
      → ℕ
      → ProjectSpec
      → Project
      → Store
      → Result ProjectError ((Text × Text) × Option Transition)
      → Result ProjectError CandidateResult × Store
  commit_or_error now by candidate p s (err e) = (err e, s)
  commit_or_error now by candidate p s (ok ((data', hash), transition)) =
      commit p (new_revision now p candidate.spec_version data' hash by s) s transition

  abbrev pub insert_classified :
      Bool
      → ℕ
      → ℕ
      → ProjectSpec
      → Project
      → Store
      → Option ProjectSpec
      → Result ProjectError CandidateResult × Store
  insert_classified true now by candidate p s current = commit_or_error now by candidate p s (
      canonical candidate >>= λ stored.
      classified current candidate >>= λ transition. ok (stored, transition))
  insert_classified false now by candidate p s current =
      (ok (invalid_spec (validate (some candidate))), s)

  -- `classifyAndInsertLocked`; a nil candidate is invalid.
  unfoldable pub classify_and_insert :
      ℕ
      → ℕ
      → Option ProjectSpec
      → Project
      → Store
      → Option ProjectSpec
      → Result ProjectError CandidateResult × Store
  unfolding commit
  classify_and_insert now by none p s current = (ok (invalid_spec (validate none)), s)
  classify_and_insert now by (some candidate) p s current =
      insert_classified (is_empty (validate (some candidate))) now by candidate p s current

  abbrev pub submit_on :
      Bool
      → ℕ
      → ℕ
      → Option ProjectSpec
      → Store
      → Result ProjectError (Project × Option ProjectSpec)
      → Result ProjectError CandidateResult × Store
  submit_on fault now by candidate s (err e) = (err e, s)
  submit_on fault now by candidate s (ok (p, current)) =
      classify_and_insert now by candidate p s current

  -- `SubmitCandidate`
  unfoldable pub submit_candidate :
      Bool → ℕ → ℕ → Option ProjectSpec → ℕ → Store → Result ProjectError CandidateResult × Store
  submit_candidate fault now id candidate by s =
      submit_on fault now by candidate s
        (get_project fault id s >>= λ p. current_spec fault s p >>= λ current. ok (p, current))

  abbrev pub create_on :
      ℕ
      → ℕ
      → ProjectSpec
      → Store
      → Result ProjectError ((Text × Text) × Project)
      → Result ProjectError Revision × Store
  create_on now by spec s (err e) = (err e, s)
  create_on now by spec s (ok ((data', hash), p)) =
      let r = new_revision now p spec.spec_version data' hash by s in (ok r, insert_revision p r s)

  abbrev pub create_checked :
      Bool → Bool → ℕ → ℕ → ProjectSpec → ℕ → Store → Result ProjectError Revision × Store
  create_checked true fault now id spec by s =
      create_on now by spec s
        (canonical spec >>= λ stored. get_project fault id s >>= λ p. ok (stored, p))
  create_checked false fault now id spec by s = (err (invalid_spec_error (validate (some spec))), s)

  -- `CreateRevision`
  unfoldable pub create_revision :
      Bool → ℕ → ℕ → Option ProjectSpec → ℕ → Store → Result ProjectError Revision × Store
  create_revision fault now id none by s = (err (invalid_spec_error (validate none)), s)
  create_revision fault now id (some spec) by s =
      create_checked (is_empty (validate (some spec))) fault now id spec by s
