-- ===== src/Fleet.antt =====
-- src/modules/fleet: requests for a fleet of vehicles, and the associations that buy together.
pub mod Transitions
pub mod Requests
pub mod Review
pub mod Associations
pub mod Browse
pub mod Progress
