-- ===== src/Identity.antt =====
-- apps/api/src/identity: the store of users, groups and roles over the database.
pub mod Data
pub mod Upsert
pub mod Admin
pub mod Manual
pub mod Transfer
pub mod Store
pub mod Repeats
