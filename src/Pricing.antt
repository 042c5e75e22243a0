-- ===== src/Pricing.antt =====
-- src/modules/pricing and src/modules/promotions: what a vehicle costs.
pub mod Discount
pub mod Breakdown
pub mod Laws
pub mod Promotion
