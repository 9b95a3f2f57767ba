-- ===== src/Auth.antt =====
-- Accounts, sessions, permissions and members: backend/app/services/auth.py, backend/app/deps.py and
-- the handlers of backend/app/routers/auth.py and backend/app/routers/orgs.py.
pub mod Model
pub mod Tokens
pub mod Rotation
pub mod Access
pub mod Permissions
pub mod Accounts
pub mod Mail
pub mod Lockout
pub mod Resets
pub mod Csrf
pub mod Slugs
pub mod Termination
pub mod Signup
pub mod Orgs
pub mod Membership
pub mod Invitations
pub mod Uniqueness
