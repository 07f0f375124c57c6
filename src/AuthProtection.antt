-- ===== src/AuthProtection.antt =====
-- apps/api/src/auth-protection: the protection of the logins against brute force.
pub mod Settings
pub mod Config
pub mod Lockout
pub mod IpBan
pub mod Login
