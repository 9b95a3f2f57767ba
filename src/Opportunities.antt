-- ===== src/Opportunities.antt =====
-- The life of an opportunity: backend/app/services/opportunities.py and the handlers of
-- backend/app/routers/opportunities.py that write, or that read scores and evidence.
pub mod Commands
pub mod Creation
pub mod Deciding
pub mod Versions
pub mod Listing
pub mod Paging
pub mod Complete
pub mod Liveness
pub mod Cards
pub mod Ranking
pub mod Current
