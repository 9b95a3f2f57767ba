-- ===== src/Outreach.antt =====
-- Messages to founders, the outreach handlers of backend/app/routers/operations.py.
pub mod Commands
pub mod Sending
