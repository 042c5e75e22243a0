-- ===== src/Sellers.antt =====
-- src/modules/sellers: the profiles of dealers, their verification and suspension.
pub mod Profiles
pub mod Moderation
pub mod Standing
