-- ===== src/Tests.antt =====
-- Concrete instances of the interfaces, and the theorems at concrete data.
pub mod Natural
pub mod Tables
pub mod Queries
pub mod Stored
pub mod Memory
pub mod Data
pub mod Listings
pub mod Orders
pub mod Payments
pub mod Invoices
pub mod Bookings
pub mod Pricing
pub mod Rows
pub mod Requests
pub mod Market
