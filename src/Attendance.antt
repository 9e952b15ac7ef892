-- ===== src/Attendance.antt =====
-- Attendance: the sessions, the records and their penalties of backend/app/api/routes/attendance.py,
-- and the codes of backend/app/services/attendance_qr_service.py.
pub mod Base64
pub mod QrToken
pub mod RoundTrip
pub mod Models
pub mod Settings
pub mod Access
pub mod Penalty
pub mod Records
pub mod Expected
pub mod Archive
pub mod Sessions
pub mod Scan
pub mod Justifications
pub mod Manual
pub mod Roster
pub mod Invariant
pub mod Routes
pub mod CheckIn
pub mod Closing
mod Samples
mod Tests
mod RosterTests
