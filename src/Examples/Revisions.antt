-- ===== src/Examples/Revisions.antt =====
-- A project that gets its first revision.
use gombit_forge.Prelude.{◌≡◌, refl, false, none, some, [], ◌∷◌, Text, Option, codes}
use gombit_forge.ProjectSpec.{ProjectSpec}
use gombit_forge.ProjectSpec.Codec.{JsonCodec}
use gombit_forge.Projects.{Project, Store, Transition, create_revision, head}
use gombit_forge.Projects.Chain.{IsLinear}
use gombit_forge.Projects.History.{here, next, revision_created, Reach-IsLinear}
use gombit_forge.Projects.Head.{is_corrupt, head-Reach}
use gombit_forge.Examples.Graphs.{shop}

abbrev first_project : Project
first_project = record {
  id = 1;
  organization_id = 1;
  name = codes "Shop";
  slug = codes "shop";
  head_revision_id = none;
  cloud_project_id = none;
  created_by = 3;
}

abbrev start : Store
start = record {
  next_project = 2;
  next_revision = 1;
  projects = first_project ∷ [];
  revisions = [];
  audit = [];
}

start-IsLinear : IsLinear start
start-IsLinear = record { chains = (refl, tt); known = refl; owned = refl }

abbrev codec : JsonCodec
codec = record { encode = λ s. some s.project.name; decode = λ t. none }

abbrev digest : Text → Text
digest t = t

abbrev classify : ProjectSpec → ProjectSpec → Option Transition
classify s t = none

abbrev revised : Store
revised = (create_revision codec digest classify false 5 1 (some shop) 3 start).1

Reach-IsLinear_example : IsLinear revised
Reach-IsLinear_example =
    Reach-IsLinear codec digest classify start revised
      (next here (revision_created false 5 1 (some shop) 3 start)) start-IsLinear

head-Reach_example : is_corrupt (head false 1 revised) ≡ false
head-Reach_example =
    head-Reach codec digest classify start revised false 1 start-IsLinear
      (next here (revision_created false 5 1 (some shop) 3 start))
