-- ===== src/Lib.antt =====
-- Gombit Forge: the description of an application, the names of what is generated from it, and the
-- control plane's projects, organizations and queue of exports.
--
-- An application is a `ProjectSpec` (internal/spec/spec.go), whose resources and fields have
-- stable IDs (internal/spec/id.go). A label is made an identifier (internal/spec/normalize.go),
-- the identifier is frozen for its entity in a ledger (internal/spec/mint.go,
-- internal/spec/ledger.go), and is changed by a refactor alone (internal/spec/refactor.go). A spec
-- is validated (internal/spec/validate.go) and, when nothing is wrong with it, linked into a graph
-- (internal/compiler/graph/graph.go) that generators walk. Before a candidate spec is generated,
-- the lineage of its IDs (internal/spec/lineage.go) and its deletions
-- (internal/compiler/deletion.go) are analyzed. The control plane keeps organizations
-- (controlplane/internal/org), projects with their append-only revisions
-- (controlplane/internal/project/service.go) and a queue of export jobs
-- (controlplane/internal/exportjob) that a worker drains (controlplane/internal/exportworker).
--
-- - Prelude: lists, maps, texts and results that the parts share. A Go string is its list of code
--   points, a pointer an `Option`, a map an association list, `(value, error)` a `Result`.
-- - Names: internal/spec/names.go. Normalize: internal/spec/normalize.go. StableId:
--   internal/spec/id.go.
-- - Ledger: internal/spec/ledger.go, as a value that each operation returns anew (`Record` is
--   `record_symbol`); Ledger.History has the operations as a step relation.
-- - Mint: internal/spec/mint.go, on fuel: `max_mint_attempts` rounds, as the loop has.
-- - ProjectSpec: internal/spec/spec.go, and ProjectSpec.Codec internal/spec/codec.go around a codec
--   that is a parameter. Lineage: internal/spec/lineage.go.
-- - Refactor: `RefactorCodeName` of internal/spec/refactor.go, and Refactor.Drift its
--   `NormalizeIdentifiers`.
-- - Validate: internal/spec/validate.go, a check being a function of the IDs seen so far. The texts
--   of the messages are left out. Validate.Accepts has the walk told as tests and claims.
-- - Deletion: internal/compiler/deletion.go. Graph: internal/compiler/graph/graph.go, with a pointer
--   as a position in the graph and a nil dereference as an error.
-- - Version: internal/gombit/version.go.
-- - ExportJob: controlplane/internal/exportjob, and ExportJob.Worker
--   controlplane/internal/exportworker, whose loop runs on fuel: more rounds than queued jobs are
--   enough. A database call is a function on the table with an argument that says whether it fails.
-- - Projects: controlplane/internal/project/{service,models}.go. A call is a transaction that changes
--   all or nothing; the JSON codec, SHA-256 and `ClassifyEdit` are parameters.
-- - Org: controlplane/internal/org, with its tables as lists and the invitation token's hash, the
--   lower-casing and the users table as parameters.
-- - Examples: the theorems at concrete inputs.
--
-- Integers that the code bounds itself are natural numbers; the Crockford encoder keeps its bits
-- in a number with the source's shifts as division and remainder. Characters beyond ASCII are
-- classed by a parameter `is_letter`. Not modelled: the texts of diagnostics, the generators, the
-- runs of the toolchain, the edits of a project, the extension ABI, cloud builds, HTTP and GitHub,
-- and the web client.
mod Prelude
pub mod Names
pub mod Normalize
pub mod StableId
pub mod Ledger
pub mod Mint
pub mod ProjectSpec
pub mod Lineage
pub mod Refactor
pub mod Deletion
pub mod ExportJob
pub mod Org
pub mod Validate
pub mod Graph
pub mod Version
pub mod Projects
mod Examples
