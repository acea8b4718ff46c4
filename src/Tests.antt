-- ===== src/Tests.antt =====
-- Concrete runs of the model, on a small database and a small queue.
mod Fixtures
mod Tenancy
mod Metering
mod Access
mod Background
mod Billing
mod Requests
mod Seeding
mod Web
mod Deliveries
