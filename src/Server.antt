-- ===== src/Server.antt =====
-- The frame of a request: the database with its transaction, HTTP errors, the audit log, and the
-- permission dependencies of backend/app/api/deps.py.
pub mod Models
pub mod Handler
pub mod Deps
