-- ===== src/Leads.antt =====
-- The capture and export of leads, apps/api/src/leads.
pub mod Fields
pub mod Bounds
pub mod Csv
pub mod Capture
pub mod Webhook
pub mod Sound
mod Tests
