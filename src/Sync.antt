-- ===== src/Sync.antt =====
-- apps/api/src/sync: the synchronisation of users, groups and roles from external sources.
pub mod Errors
pub mod Counters
pub mod Log
pub mod Directory
pub mod Users
pub mod Memberships
pub mod Run
pub mod Scheduler
pub mod All
