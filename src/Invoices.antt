-- ===== src/Invoices.antt =====
-- src/modules/invoices: the buyer's and the fleet's invoices, their cancellation and expiry.
pub mod Statuses
pub mod Snapshot
pub mod Request
pub mod Fleet
pub mod Cancellation
pub mod Expiry
pub mod Queries
pub mod Fulfillment
pub mod Calls
