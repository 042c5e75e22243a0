-- ===== src/Platform.antt =====
-- The services that the commerce modules call: money helpers, platform settings and the exchange
-- rate, reference numbers, notifications and the audit log.
pub mod Money
pub mod Settings
pub mod Reference
pub mod Roles
pub mod Pages
pub mod Slug
pub mod Notifications
pub mod Audit
pub mod Uploads
