-- ===== src/Infrastructure.antt =====
-- app/infrastructure: what the program keeps in Redis.
pub mod Queue
pub mod RateLimit
