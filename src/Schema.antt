-- ===== src/Schema.antt =====
-- The data model of prisma/schema.prisma, as far as the modelled services read or write it.
pub mod Commerce
pub mod Catalog
pub mod Charging
pub mod Market
pub mod Requests
pub mod Rows
pub mod RequestRows
pub mod StationRows
pub mod MarketRows
pub mod World
