-- ===== src/Tests.antt =====
-- Concrete runs of the theorems.
mod Fixtures
mod Auth
mod Extraction
mod Pipeline
mod Signup
mod Orgs
mod Listing
mod Cards
mod Screening
mod Jobs
mod Scoring
mod RateLimit
mod Theses
mod Messages
mod Memo
mod Editing
mod Llm
mod Sourcing
mod Erasure
mod Applications
