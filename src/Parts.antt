-- ===== src/Parts.antt =====
-- src/modules/parts: spare parts, which dealers offer and administrators review.
pub mod Rows
pub mod Writes
pub mod Review
pub mod Browse
pub mod Steps
pub mod Shown
