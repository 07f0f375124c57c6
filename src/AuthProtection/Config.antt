-- ===== src/AuthProtection/Config.antt =====
-- apps/api/src/auth-protection/rate-limit.config.ts with boundedInt of
-- apps/api/src/common/config/bounded-int.util.ts: the settings that an environment gives. `number_of`
-- is `Number` on a text that is neither empty nor made of digits; it is absent where the answer is
-- not finite or is negative, which no bounds admit. The list of trusted ranges is an argument.
pub mod Bounds
use nest_id_p.Base.{
  ℕ, zero, suc, ◌+◌, ◌-◌, ◌*◌, ◌^◌, ◌≤◌, ◌<◌, ◌≡◌, ◌≢◌, ◌↔◌, ◌⊎◌, inl, inr, refl, sym, ap, ◌∙◌, min,
  max, String, Bool, true, false, not, ◌&&◌, ◌||◌, Option, none, some, List, [], ◌∷◌, ◌++◌, map,
  arith, leb, ltb, nat_beq, if◌then◌else◌, length, take, keep, All, Bool-cases, Option-cases,
}
use nest_id_p.Base.Eq.{Eq, ◌==◌, nat_eq, string_eq, contains, beq_refl, beq-false}
use nest_id_p.Base.Maps.{Map, get, set, delete, retain}
use nest_id_p.Base.Text.{Text, codes}
use Prim.Native.String.{◌++◌ as append}
use nest_id_p.Base.Text.{text_beq, to_lower_case, trim}
use nest_id_p.Base.Text.{all_digits, decimal_from}
use nest_id_p.AuthProtection.Settings.{
  Scope, admin, end_user, SettingsOf, ResponseMode, retry_after, opaque,
}

-- The value of a key, absent where it is unset.
abbrev pub Environment : Type 0
Environment = String → Option Text

abbrev pub fifteen_min_ms : ℕ
fifteen_min_ms = 900_000

abbrev pub hour_ms : ℕ
hour_ms = 3_600_000

abbrev pub day_ms : ℕ
day_ms = 86_400_000

-- A finite number that is not negative: a numerator over a power of two, as a double is.
pub record Number : Type 0 where
  pub numerator : ℕ
  pub twos : ℕ

abbrev pub whole : ℕ → Number
whole n = record { numerator = n; twos = 0 }

abbrev pub is_within : ℕ → ℕ → Number → Bool
is_within min max x = leb (min * 2 ^ x.twos) x.numerator && leb x.numerator (max * 2 ^ x.twos)

abbrev pub within_or : ℕ → ℕ → ℕ → Option Number → Number
within_or fallback min max none = whole fallback
within_or fallback min max (some x) = if is_within min max x then x else whole fallback

-- `scope === 'admin' ? a : b`.
abbrev pub by_scope : Scope → Number → Number → Number
by_scope admin a b = a
by_scope end_user a b = b

-- `ADMIN_…` or `END_USER_…`.
abbrev pub scoped_key : Scope → String → String
scoped_key admin key = append "ADMIN_" key
scoped_key end_user key = append "END_USER_" key

module _ (number_of : Text → Option Number) (env : Environment) where
  -- `Number` of a text.
  unfoldable pub number : Text → Option Number
  number [] = some (whole 0)
  number (c ∷ text) =
      if all_digits (c ∷ text)
      then some (whole (decimal_from 0 (c ∷ text)))
      else number_of (c ∷ text)

  bounded_text : Text → ℕ → ℕ → ℕ → Number
  bounded_text [] fallback min max = whole fallback
  bounded_text (c ∷ text) fallback min max = within_or fallback min max (number (c ∷ text))

  pub bounded_int : String → ℕ → ℕ → ℕ → Number
  unfolding bounded_text
  bounded_int key fallback min max = elim (env key) [
    | none ↦ whole fallback
    | some raw ↦ bounded_text (trim raw) fallback min max
  ]

  unfoldable pub optional_text : Text → ℕ → ℕ → Option Number
  optional_text [] min max = none
  optional_text (c ∷ text) min max = elim (number (c ∷ text)) [
    | none ↦ none
    | some x ↦ if is_within min max x then some x else none
  ]

  unfoldable pub optional_int : String → ℕ → ℕ → Option Number
  unfolding optional_text
  optional_int key min max = elim (env key) [ none ↦ none | some raw ↦ optional_text raw min max ]

  unfoldable pub scoped : Scope → String → ℕ → ℕ → ℕ → Number
  unfolding optional_int bounded_int
  scoped scope key fallback min max = elim (optional_int (scoped_key scope key) min max) [
    | some x ↦ x
    | none ↦ bounded_int key fallback min max
  ]

  pub response_mode_of : Option Text → ResponseMode
  response_mode_of none = retry_after
  response_mode_of (some raw) =
      if text_beq (to_lower_case raw) (codes "opaque") then opaque else retry_after

  -- Every setting, from its key, its default and its bounds.
  unfoldable pub rate_limit_settings : List String → SettingsOf Number
  unfolding scoped bounded_int response_mode_of
  rate_limit_settings trusted = record {
    lockout_threshold = λ scope. scoped scope "LOGIN_LOCKOUT_THRESHOLD" 5 0 1000;
    lockout_base_ms =
        λ scope. scoped scope "LOGIN_LOCKOUT_BASE_MS" fifteen_min_ms 1000 (30 * day_ms);
    lockout_max_ms = λ scope. scoped scope "LOGIN_LOCKOUT_MAX_MS" day_ms 1000 (30 * day_ms);
    login_ip_max = λ scope.
        by_scope scope (bounded_int "ADMIN_LOGIN_RATE_LIMIT_MAX" 10 1 100_000)
          (bounded_int "END_USER_LOGIN_RATE_LIMIT_MAX" 10 1 100_000);
    login_ip_window_ms = λ scope.
        by_scope scope (bounded_int "ADMIN_LOGIN_RATE_LIMIT_WINDOW_MS" fifteen_min_ms 1000 day_ms)
          (bounded_int "END_USER_LOGIN_RATE_LIMIT_WINDOW_MS" fifteen_min_ms 1000 day_ms);
    login_username_max = λ scope.
        by_scope scope (bounded_int "ADMIN_LOGIN_RATE_LIMIT_USERNAME_MAX" 5 1 100_000)
          (bounded_int "END_USER_LOGIN_RATE_LIMIT_USERNAME_MAX" 5 1 100_000);
    login_username_window_ms = λ scope.
        by_scope scope
          (bounded_int "ADMIN_LOGIN_RATE_LIMIT_USERNAME_WINDOW_MS" fifteen_min_ms 1000 day_ms)
          (bounded_int "END_USER_LOGIN_RATE_LIMIT_USERNAME_WINDOW_MS" fifteen_min_ms 1000 day_ms);
    sso_ip_max = bounded_int "SAML_SSO_RATE_IP_MAX" 60 1 1_000_000;
    sso_window_ms = bounded_int "SAML_SSO_RATE_WINDOW_MS" fifteen_min_ms 1000 day_ms;
    ip_ban_threshold = bounded_int "LOGIN_IP_BAN_THRESHOLD" 10 0 1_000_000;
    ip_ban_window_ms = bounded_int "LOGIN_IP_BAN_WINDOW_MS" fifteen_min_ms 1000 day_ms;
    ip_ban_ms = bounded_int "LOGIN_IP_BAN_MS" hour_ms 1000 (30 * day_ms);
    tarpit_base_ms = bounded_int "LOGIN_TARPIT_BASE_MS" 0 0 5_000;
    response_mode = response_mode_of (env "LOGIN_LOCKOUT_RESPONSE_MODE");
    trusted_cidrs = trusted;
  }

  pub lockout_prune_interval_ms : Number
  unfolding bounded_int
  lockout_prune_interval_ms = bounded_int "LOGIN_LOCKOUT_PRUNE_INTERVAL_MS" hour_ms 0 (7 * day_ms)
