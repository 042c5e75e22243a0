-- ===== src/Listings.antt =====
-- src/modules/listings: the status of a listing and its stage in the inventory.
pub mod Transitions
pub mod Inventory
pub mod Moderation
