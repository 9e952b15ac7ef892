-- ===== src/Mobile.antt =====
-- Mobile money: backend/app/services/mobile_money_service.py, models/mobile_money.py and the payment
-- notification of api/routes/payments.py.
pub mod Models
pub mod Allocation
pub mod Service
pub mod Confirmation
pub mod Callback
pub mod Reconciliation
pub mod Settlement
pub mod Payments
pub mod Finality
pub mod Arrivals
pub mod Routes
mod Tests
pub mod PaidOnce
