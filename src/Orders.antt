-- ===== src/Orders.antt =====
-- src/modules/orders: an order goes through the stages of its kind of seller.
pub mod Stages
pub mod Delivery
pub mod Creation
pub mod Progress
pub mod Fulfillment
pub mod Buyer
pub mod Steps
