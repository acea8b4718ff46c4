-- ===== src/Security.antt =====
-- app/security, and the parts of app/config.py that the services read.
pub mod Permissions
pub mod Crypto
