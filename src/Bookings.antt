-- ===== src/Bookings.antt =====
-- src/modules/bookings: a vehicle held for a fee, from the request to the verdict on its payment.
pub mod Statuses
pub mod Request
pub mod Fee
pub mod Submission
pub mod Cancellation
pub mod Verification
pub mod Outcome
pub mod Steps
