-- ===== src/Energy.antt =====
-- src/modules/energy: charging products and the requests for a quote.
pub mod Products
pub mod Requests
