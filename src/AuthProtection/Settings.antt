-- ===== src/AuthProtection/Settings.antt =====
-- What the services of auth-protection read of `RateLimitConfig`
-- (apps/api/src/auth-protection/rate-limit.config.ts), as an interface: the services take the
-- settings as a parameter, and the configuration module fills them from the environment.
use nest_id_p.Base.{ℕ, ◌≡◌, ◌↔◌, String, Bool, true, false, List, [], arith}
use nest_id_p.Base.Eq.{Eq}

-- `LoginScope`.
pub data Scope : Type 0 where
  admin end_user : Scope

abbrev pub scope_beq : Scope → Scope → Bool
scope_beq admin admin = true
scope_beq end_user end_user = true
scope_beq _ _ = false

pub scope_beq_iff : (a b : Scope) → (scope_beq a b ≡ true) ↔ (a ≡ b)
scope_beq_iff admin admin = ground arith
scope_beq_iff admin end_user = ground arith
scope_beq_iff end_user admin = ground arith
scope_beq_iff end_user end_user = ground arith

instance abbrev pub scope_eq : Eq Scope
scope_eq = record { beq = scope_beq; beq_iff = scope_beq_iff }

-- `LoginLockoutResponseMode`.
pub data ResponseMode : Type 0 where
  retry_after opaque : ResponseMode

-- Every setting, over the numbers it is read in.
pub record SettingsOf (N : Type 0) : Type 0 where
  pub lockout_threshold : Scope → N
  pub lockout_base_ms : Scope → N
  pub lockout_max_ms : Scope → N
  pub login_ip_max : Scope → N
  pub login_ip_window_ms : Scope → N
  pub login_username_max : Scope → N
  pub login_username_window_ms : Scope → N
  pub sso_ip_max : N
  pub sso_window_ms : N
  pub ip_ban_threshold : N
  pub ip_ban_window_ms : N
  pub ip_ban_ms : N
  pub tarpit_base_ms : N
  pub response_mode : ResponseMode
  pub trusted_cidrs : List String

-- The services count in whole numbers.
abbrev pub Settings : Type 0
Settings = SettingsOf ℕ

-- The values that an empty environment gives.
abbrev pub default_settings : Settings
default_settings = record {
  lockout_threshold = λ s. 5;
  lockout_base_ms = λ s. 900_000;
  lockout_max_ms = λ s. 86_400_000;
  login_ip_max = λ s. 10;
  login_ip_window_ms = λ s. 900_000;
  login_username_max = λ s. 5;
  login_username_window_ms = λ s. 900_000;
  sso_ip_max = 60;
  sso_window_ms = 900_000;
  ip_ban_threshold = 10;
  ip_ban_window_ms = 900_000;
  ip_ban_ms = 3_600_000;
  tarpit_base_ms = 0;
  response_mode = retry_after;
  trusted_cidrs = [];
}
