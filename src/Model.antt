-- ===== src/Model.antt =====
-- The data model: app/models, app/core and the values that the services exchange.
pub mod Enums
pub mod Errors
pub mod Json
pub mod Time
pub mod Tables
