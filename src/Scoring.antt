-- ===== src/Scoring.antt =====
-- The scores and the recommendation: backend/app/services/score.
pub mod Recommendation
pub mod Decisions
pub mod ThesisFit
pub mod Gates
