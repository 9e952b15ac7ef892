-- ===== src/People.antt =====
-- Users and their roles, as permission tests read them: backend/app/models/user.py, models/role.py,
-- core/roles.py, api/deps.py, and their life cycle, services/operational_integrity.py.
pub mod Models
pub mod Roles
pub mod Lifecycle
pub mod Reconciliation
mod Tests
