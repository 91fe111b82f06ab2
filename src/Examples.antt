-- ===== src/Examples.antt =====
-- The theorems at concrete inputs.
mod Names
mod Symbols
mod Specs
mod Graphs
mod Jobs
mod Orgs
mod Revisions
