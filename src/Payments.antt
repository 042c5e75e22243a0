-- ===== src/Payments.antt =====
-- src/modules/payments: buyers submit payments for invoices, and the finance team confirms them,
-- rejects them or marks them as partial.
pub mod Transitions
pub mod Submission
pub mod Verification
pub mod Listing
