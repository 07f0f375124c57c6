-- ===== src/Lib.antt =====
-- NestIdP, a SAML identity provider with an administration API. These are its parts, and the files
-- that model them.
--
-- apps/api/src/common/rate-limit/sliding-window-rate-limiter.ts (SlidingWindowRateLimiter) is the
-- counter that the login protection stands on: Limiter.antt. Its map is an association list, of
-- which an entry is read by its first occurrence, and each call takes the reading of the clock.
-- Limiter/Invariant.antt, Limiter/Counting.antt and Limiter/Isolation.antt are about it.
--
-- packages/shared/src/proxy.ts matches an address with CIDR ranges (ipInCidr, ipMatchesCidrList):
-- Cidr.antt, over lists of code points. What `Number` answers on a text that is neither empty nor
-- made of digits is a parameter, `number_of`.
-- Cidr/Bypass.antt is the list of hosts that skip the outbound proxy (parseNoProxyHosts,
-- hostBypassesProxy), with the URL parser and `toLowerCase` as parameters.
--
-- apps/api/src/auth-protection guards every login. AuthProtection/Settings.antt is what it reads of
-- RateLimitConfig, which AuthProtection/Config.antt fills from an environment: there a number is a
-- numerator over a power of two, as a finite double is, while the services are modelled over whole
-- settings, and so is the rotation of the certificates.
-- AuthProtection/Lockout.antt is AccountLockoutService over the table LoginLockout (a map from
-- scope and username to the row), AuthProtection/IpBan.antt is IpBanService, and
-- AuthProtection/Login.antt is LoginProtectionService, which composes the other two with one
-- limiter, with the login handlers of auth/controllers/auth.controller.ts and admin-
-- auth/controllers/admin-auth.controller.ts around it. Audit events and notices are lists that the
-- calls append to. A call runs whole: two requests are not interleaved inside it. The deletion of a
-- row on success may fail, which is an argument.
--
-- apps/api/src/sync copies users, groups and roles of external sources into the identity store:
-- Sync.antt. Sync/Counters.antt, Sync/Errors.antt and Sync/Log.antt are what a run counts, records
-- and leaves in the table of logs. Sync/Directory.antt holds the interfaces to the external source,
-- to its contract and to the identity store, whose operations may throw. Sync/Users.antt,
-- Sync/Memberships.antt and Sync/Run.antt are SyncService: fetchAndMapUsers, applyUserMemberships,
-- and triggerSync with beginRun, deactivateOrphans and finalizeRun. Sync/Scheduler.antt is
-- SyncSchedulerService, and Sync/All.antt is syncAll, to which the run is an argument. A run is one
-- step: another run or an administrator does not interleave with it.
--
-- apps/api/src/identity/identity.repository.ts is that store: Identity.antt. Identity/Data.antt holds
-- its tables, Identity/Upsert.antt what a run calls, Identity/Store.antt the instance of the
-- interface, with what whole runs keep, Identity/Admin.antt and Identity/Manual.antt what the
-- administration reads and writes, and Identity/Transfer.antt the export, the import and the removal
-- of a source. Sync/Run/Preserves.antt carries what the operations of a store keep through a run.
--
-- apps/api/src/idp-settings keeps the certificates of the identity provider: CertRotation.antt.
-- CertRotation/Config.antt is its configuration, CertRotation/Service.antt the rotation by hand,
-- CertRotation/Auto.antt the automatic one, and CertRotation/Commands.antt all that reaches the
-- service, one call after the other.
--
-- apps/api/src/saml-sessions/services/saml-sso-session.service.ts is the registry of the single
-- sign-on sessions: SamlSessions.antt, with SamlSessions/Revoked.antt on their ends.
--
-- apps/api/src/admin-users/services/admin-users.service.ts keeps the accounts of administrators:
-- AdminUsers.antt.
--
-- Base.antt and its children hold what the parts share: numbers and Boolean tests, lists, maps,
-- texts. Examples.antt holds tests and concrete instances.
--
-- Loops are structural recursion, so that no fuel is needed. Times are natural numbers of
-- milliseconds since the epoch, and numbers are exact: the source's are below 2^53, where doubles
-- are exact, apart from the doubling backoff, which the source caps by a minimum, as the model
-- does.
--
-- Not modelled: the web interface (apps/web), XML and signatures of SAML, SQL and the clients of
-- external databases, HTTP, the generation of certificates, and the services that only pass rows of
-- the database on.
pub mod Base
pub mod Limiter
pub mod Sync
pub mod Identity
pub mod CertRotation
pub mod SamlSessions
pub mod AdminUsers
pub mod Cidr
pub mod AuthProtection
mod Examples
