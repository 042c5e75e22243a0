-- ===== src/Inquiries.antt =====
-- src/modules/inquiries: questions of visitors about a listing, which become quotes.
pub mod Requests
pub mod Browse
