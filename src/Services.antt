-- ===== src/Services.antt =====
-- The services of app/services, a module for each.
pub mod Rows
pub mod Audit
pub mod Periods
pub mod Billing
pub mod Usage
pub mod Organizations
pub mod Invitations
pub mod Projects
pub mod ApiKeys
pub mod Auth
pub mod Webhooks
pub mod System
pub mod Isolation
