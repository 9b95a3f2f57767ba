-- ===== src/Memo.antt =====
-- The decision memo: backend/app/services/memo.py and backend/app/routers/memos.py.
pub mod Compose
pub mod Sections
pub mod Gaps
pub mod Handlers
pub mod Editing
pub mod Reading
