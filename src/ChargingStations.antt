-- ===== src/ChargingStations.antt =====
-- src/modules/charging-stations: operators of charging stations, their stations with ports, prices and
-- photos, and the review of both.
pub mod Transitions
pub mod Operators
pub mod Access
pub mod Stations
pub mod Review
pub mod Equipment
pub mod Browse
pub mod Steps
