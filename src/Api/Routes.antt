-- ===== src/Api/Routes.antt =====
-- The routes of app/api/routes. FastAPI solves the dependencies of a route first, and validates its
-- body and its query after them.
pub mod Accounts
pub mod Organizations
pub mod Resources
pub mod Webhooks
