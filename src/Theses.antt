-- ===== src/Theses.antt =====
-- The investment theses of an organisation, backend/app/routers/theses.py.
pub mod Commands
pub mod Ordered
pub mod Default
pub mod Ranges
