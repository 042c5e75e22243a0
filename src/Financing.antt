-- ===== src/Financing.antt =====
-- src/modules/financing: requests for support with a bank's loan, and the partner banks.
pub mod Requests
pub mod Review
pub mod Browse
pub mod LifeCycle
pub mod Progress
