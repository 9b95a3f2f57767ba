-- ===== src/Pipeline.antt =====
-- backend/app/services/pipeline.py: the screening of an opportunity by a worker.
pub mod Axes
pub mod Screen
pub mod Process
pub mod Bounds
pub mod Versions
pub mod Kept
pub mod Stages
pub mod Invariant
pub mod Verdict
pub mod Ending
pub mod Finish
pub mod Rerun
