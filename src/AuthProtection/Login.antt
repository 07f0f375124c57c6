-- ===== src/AuthProtection/Login.antt =====
-- apps/api/src/auth-protection/login-protection.service.ts: the checks before a password is looked
-- at, and what a failed and a successful login record. A call reads the clock once and runs whole,
-- without another call in between. Audit events and notifications are appended to lists.
pub mod Order
pub mod Keys
pub mod Throttle
pub mod Guesses
use Prim.Native.String.{◌++◌ as append}
use mathlib.Core.List.{List, [], ◌∷◌, ◌++◌, map}
use nest_id_p.Base.{
  ℕ, ◌+◌, ◌-◌, ◌*◌, ◌/◌, min, String, Bool, true, false, not, ◌&&◌, ◌||◌, Option, none, some, leb,
  ltb, if◌then◌else◌,
}
use nest_id_p.Base.Eq.{◌==◌, nat_eq, string_eq}
use nest_id_p.Base.Text.{Text, codes, trim}
use nest_id_p.Limiter
use nest_id_p.Limiter.{Limiter, record_hit, reset, fresh_limiter}
use nest_id_p.Cidr.{ip_matches_cidr_list, unbracket}
use nest_id_p.AuthProtection.Settings.{
  Scope, admin, end_user, Settings, ResponseMode, retry_after, opaque,
}
use nest_id_p.AuthProtection.Lockout
use nest_id_p.AuthProtection.Lockout.{LockoutKey, Table, record_failure, record_success}
use nest_id_p.AuthProtection.IpBan
use nest_id_p.AuthProtection.IpBan.{IpBan, no_bans, record_trip}

pub data BlockReason : Type 0 where
  ip_banned ip_throttle username_throttle lockout : BlockReason

pub record PrecheckResult : Type 0 where
  pub allowed : Bool
  pub reason : Option BlockReason
  pub retry_after_ms : ℕ

-- `ProtectedSurface`.
pub data Surface : Type 0 where
  login : Scope → Surface
  sso : Surface

pub data LimiterKind : Type 0 where
  ip username : LimiterKind

-- What `AuthProtectionAuditService` is asked to record.
pub data AuditEvent : Type 0 where
  rate_limited : Surface → String → LimiterKind → ℕ → Option String → AuditEvent
  account_locked : Scope → String → String → ℕ → Option ℕ → AuditEvent
  ip_was_banned : Surface → String → ℕ → Option ℕ → AuditEvent

-- What the `BruteForceNotifier` is told.
pub data Notice : Type 0 where
  on_account_locked : Scope → String → String → ℕ → Option ℕ → Notice
  on_ip_banned : Scope → String → ℕ → Option ℕ → Notice

pub record Protection : Type 0 where
  pub throttle : Limiter
  pub ip_ban : IpBan
  pub lockouts : Table
  pub audit : List AuditEvent
  pub notices : List Notice

abbrev pub start : Protection
start = record {
  throttle = fresh_limiter;
  ip_ban = no_bans;
  lockouts = [];
  audit = [];
  notices = [];
}

abbrev pub scope_text : Scope → String
scope_text admin = "admin"
scope_text end_user = "end_user"

abbrev pub surface_text : Surface → String
surface_text (login s) = scope_text s
surface_text sso = "sso"

unfoldable pub ip_key : Surface → String → String
ip_key surface client_ip = append "ip:" (append (surface_text surface) (append ":" client_ip))

unfoldable pub username_key : Scope → String → String
username_key scope name = append "un:" (append (scope_text scope) (append ":" name))

abbrev pub account : Scope → String → LockoutKey
account scope name = record { scope = scope; username_key = name }

abbrev pub allow : PrecheckResult
allow = record { allowed = true; reason = none; retry_after_ms = 0 }

abbrev pub refuse : BlockReason → ℕ → PrecheckResult
refuse reason retry_ms = record { allowed = false; reason = some reason; retry_after_ms = retry_ms }

abbrev pub log : AuditEvent → Protection → Protection
log event p = record p { audit = p.audit ++ event ∷ [] }

abbrev pub notify : Notice → Protection → Protection
notify notice p = record p { notices = p.notices ++ notice ∷ [] }

abbrev pub notice_scope : Surface → Scope
notice_scope (login s) = s
notice_scope sso = end_user

pub max_tarpit_delay_ms : ℕ
max_tarpit_delay_ms = 5_000

-- `applyTarpit`: the delay before the answer to a failed login.
unfoldable pub tarpit_delay : Settings → ℕ → ℕ
unfolding max_tarpit_delay_ms
tarpit_delay settings failed_count =
    if settings.tarpit_base_ms == 0 || failed_count == 0
    then 0
    else min (settings.tarpit_base_ms * failed_count) max_tarpit_delay_ms

-- `Math.ceil(ms / 1000)`.
unfoldable pub retry_after_seconds : ℕ → ℕ
retry_after_seconds ms = (ms + 999) / 1000

-- The exception that `enforceBlock` throws; the header is set where a response is at hand.
pub data Refusal : Type 0 where
  unauthorized : Refusal
  too_many_requests : Option ℕ → Refusal

unfoldable pub enforce_block : Settings → PrecheckResult → Bool → Refusal
enforce_block settings result has_response = elim settings.response_mode [
  | opaque ↦ unauthorized
  | retry_after ↦ too_many_requests (
      if has_response && ltb 0 result.retry_after_ms
      then some (retry_after_seconds result.retry_after_ms)
      else none)
]

-- `deleted` says whether the database carried the reset of the lockout out.
unfoldable pub record_login_success : Scope → String → String → Bool → Protection → Protection
record_login_success scope name client_ip deleted p = record p {
  throttle = reset (reset p.throttle (ip_key (login scope) client_ip)) (username_key scope name);
  lockouts = record_success p.lockouts (account scope name) deleted;
}

module _ (number_of : Text → Option ℕ) (settings : Settings) where
  unfoldable pub is_trusted : String → Bool
  unfolding ip_matches_cidr_list unbracket trim
  is_trusted client_ip =
      ip_matches_cidr_list number_of (codes client_ip) (map codes settings.trusted_cidrs)

  -- `recordTrip`.
  unfoldable pub trip : Surface → String → ℕ → Protection → Protection
  trip surface client_ip now p =
      if is_trusted client_ip
      then p
      else (let (bans, result) = record_trip settings p.ip_ban client_ip now now in
          let tripped = record p { ip_ban = bans } in
          if result.banned_now
          then notify
              (on_ip_banned (notice_scope surface) client_ip result.count result.banned_until)
              (log (ip_was_banned surface client_ip result.count result.banned_until) tripped)
          else tripped)

  -- A throttle that is met: logged, and counted as a trip.
  throttled :
      Surface
      → String
      → LimiterKind
      → Option String
      → BlockReason
      → ℕ
      → ℕ
      → Protection
      → Protection × PrecheckResult
  throttled surface client_ip kind name reason retry_ms now p = (
    trip surface client_ip now (log (rate_limited surface client_ip kind retry_ms name) p),
    refuse reason retry_ms,
  )

  -- The last part of `precheckLogin`, which a trusted address does not skip.
  lockout_stage : Scope → String → String → ℕ → Protection → Protection × PrecheckResult
  lockout_stage scope name client_ip now p =
      let lock = Lockout.check settings p.lockouts (account scope name) now in
      if lock.locked
      then (trip (login scope) client_ip now p, refuse lockout lock.retry_after_ms)
      else (p, allow)

  username_stage : Scope → String → String → ℕ → Protection → Protection × PrecheckResult
  unfolding throttled
  username_stage scope name client_ip now p =
      let (throttle, result) =
        Limiter.check p.throttle (username_key scope name) (settings.login_username_max scope)
          (settings.login_username_window_ms scope) now in
      let checked = record p { throttle = throttle } in
      if result.limited
      then throttled (login scope) client_ip username (some name) username_throttle
          result.retry_after_ms now checked
      else lockout_stage scope name client_ip now checked

  ip_stage : Scope → String → String → ℕ → Protection → Protection × PrecheckResult
  unfolding throttled
  ip_stage scope name client_ip now p =
      let (throttle, result) =
        Limiter.check p.throttle (ip_key (login scope) client_ip) (settings.login_ip_max scope)
          (settings.login_ip_window_ms scope) now in
      let checked = record p { throttle = throttle } in
      if result.limited
      then throttled (login scope) client_ip ip (some name) ip_throttle result.retry_after_ms now
          checked
      else username_stage scope name client_ip now checked

  ban_stage : Scope → String → String → ℕ → Protection → Protection × PrecheckResult
  ban_stage scope name client_ip now p =
      let (bans, result) = IpBan.check settings p.ip_ban client_ip now in
      let checked = record p { ip_ban = bans } in
      if result.banned
      then (
        log (rate_limited (login scope) client_ip ip result.retry_after_ms none) checked,
        refuse ip_banned result.retry_after_ms,
      )
      else ip_stage scope name client_ip now checked

  pub precheck_login : Scope → String → String → ℕ → Protection → Protection × PrecheckResult
  precheck_login scope name client_ip now p =
      if is_trusted client_ip
      then lockout_stage scope name client_ip now p
      else ban_stage scope name client_ip now p

  -- The throttle of `precheckSso`, which counts the request where it lets it through.
  sso_stage : String → ℕ → Protection → Protection × PrecheckResult
  unfolding throttled
  sso_stage client_ip now p =
      let (throttle, result) =
        Limiter.check p.throttle (ip_key sso client_ip) settings.sso_ip_max settings.sso_window_ms
          now in
      if result.limited
      then throttled sso client_ip ip none ip_throttle result.retry_after_ms now
          (record p { throttle = throttle })
      else (
        record p {
          throttle = record_hit throttle (ip_key sso client_ip) settings.sso_window_ms now;
        },
        allow,
      )

  pub precheck_sso : String → ℕ → Protection → Protection × PrecheckResult
  precheck_sso client_ip now p =
      if is_trusted client_ip
      then (p, allow)
      else (let (bans, result) = IpBan.check settings p.ip_ban client_ip now in
          let checked = record p { ip_ban = bans } in
          if result.banned
          then (
            log (rate_limited sso client_ip ip result.retry_after_ms none) checked,
            refuse ip_banned result.retry_after_ms,
          )
          else sso_stage client_ip now checked)

  -- The delay stands beside the state.
  unfoldable pub record_login_failure : Scope → String → String → ℕ → Protection → Protection × ℕ
  record_login_failure scope name client_ip now p =
      let by_ip =
        record_hit p.throttle (ip_key (login scope) client_ip) (settings.login_ip_window_ms scope)
          now in
      let by_name =
        record_hit by_ip (username_key scope name) (settings.login_username_window_ms scope) now in
      let (lockouts, result) = record_failure settings p.lockouts (account scope name) now in
      let recorded = record p { throttle = by_name; lockouts = lockouts } in
      let delay = tarpit_delay settings result.failed_count in
      if result.locked_now
      then (
        trip (login scope) client_ip now (
            notify (on_account_locked scope name client_ip result.failed_count result.locked_until)
              (log (account_locked scope name client_ip result.failed_count result.locked_until)
                recorded)),
        delay,
      )
      else (recorded, delay)

-- What the password check that a login goes on to answers: `unexpected` is an exception other
-- than `UnauthorizedException`, such as that of a database.
pub data Password : Type 0 where
  accepted rejected unexpected : Password

-- What the login handler answers.
pub data Reply : Type 0 where
  logged_in bad_credentials server_error : Reply
  blocked : Refusal → Reply

module _ (number_of : Text → Option ℕ) (settings : Settings) where
  after_password : Scope → String → String → ℕ → Bool → Password → Protection → Protection × Reply
  after_password scope name client_ip now deleted accepted p =
      (record_login_success scope name client_ip deleted p, logged_in)
  after_password scope name client_ip now deleted rejected p =
      ((record_login_failure number_of settings scope name client_ip now p).0, bad_credentials)
  after_password scope name client_ip now deleted unexpected p = (p, server_error)

  -- The handler of `POST login` of the admin and the end-user controllers, around the password
  -- check, whose answer is `password`.
  pub login_request :
      Scope → String → String → ℕ → Bool → Password → Protection → Protection × Reply
  unfolding after_password
  login_request scope name client_ip now deleted password p =
      let (checked, result) = precheck_login number_of settings scope name client_ip now p in
      if result.allowed
      then after_password scope name client_ip now deleted password checked
      else (checked, blocked (enforce_block settings result true))

pub clear : Protection → Protection
clear p = record p { throttle = Limiter.clear p.throttle; ip_ban = IpBan.clear p.ip_ban }
