-- ===== src/Categories.antt =====
-- src/modules/categories: the categories of vehicles and their subcategories.
pub mod Deletion
pub mod Main
pub mod Subcategories
