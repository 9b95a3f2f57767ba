-- ===== src/Applications.antt =====
-- The applications of founders: backend/app/services/applications.py,
-- backend/app/routers/applications.py and the documents of backend/app/services/object_store.py.
pub mod Upload
pub mod Submit
pub mod Handlers
pub mod Kept
pub mod Arrival
pub mod Limits
pub mod Trace
pub mod Replay
pub mod Answers
