-- ===== src/Sourcing.antt =====
-- Where candidates come from, and how a person is erased: backend/app/services/ingestion.py,
-- backend/app/services/founders.py, `_process_harvest` of backend/app/services/pipeline.py and
-- `gdpr_erase` of backend/app/routers/operations.py.
pub mod Names
pub mod Founders
pub mod People
pub mod Companies
pub mod Events
pub mod Signals
pub mod Applicants
pub mod Items
pub mod Harvest
pub mod Frame
pub mod Kept
pub mod Sources
pub mod Invariants
pub mod Known
pub mod Erasure
pub mod Unknown
