-- ===== src/Ledger.antt =====
-- Member fees, payments and the club's cash book: backend/app/models/finance.py and
-- backend/app/api/routes/finance.py.
pub mod Models
pub mod Accounts
pub mod Requests
pub mod Fees
pub mod BulkFees
pub mod Payments
pub mod Refusals
pub mod CashBook
pub mod Balance
pub mod Routes
pub mod Samples
pub mod Tests
