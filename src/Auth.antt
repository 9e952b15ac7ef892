-- ===== src/Auth.antt =====
-- Sessions of signed-in users: `AuthSession` of backend/app/models/account.py, session_service.py and
-- `get_current_user` of api/deps.py.
pub mod Models
pub mod Sessions
pub mod Revocation
pub mod Rotation
mod Tests
