-- ===== src/AuthProtection/Config/Bounds.antt =====
-- No environment takes a setting out of its bounds.
use nest_id_p.Base.{
  ℕ, ◌*◌, ◌^◌, ◌≤◌, ◌≡◌, inl, inr, min, max, String, Option, none, some, List, [], ◌∷◌, arith,
  Option-cases,
}
use nest_id_p.Base.Eq.{nat_eq, string_eq}
use nest_id_p.Base.Text.{Text}
use nest_id_p.AuthProtection.Settings.{Scope, admin, end_user, SettingsOf}
use nest_id_p.Base.Text.{trim}
use nest_id_p.AuthProtection.Config.{
  by_scope, Environment, bounded_int, bounded_text, optional_int, optional_text, scoped, scoped_key,
  number, Number, whole, lockout_prune_interval_ms, within_or, rate_limit_settings, fifteen_min_ms,
  hour_ms, day_ms,
}

-- `min <= x && x <= max`.
abbrev pub Bounded : ℕ → ℕ → Number → Type 0
Bounded min max x = (min * 2 ^ x.twos ≤ x.numerator) × (x.numerator ≤ max * 2 ^ x.twos)

-- Every number of the settings within the bounds that the limits need to limit anything.
pub record IsSafe (s : SettingsOf Number) : Type 0 where
  pub threshold : (scope : Scope) → Bounded 0 1000 (s.lockout_threshold scope)
  pub base : (scope : Scope) → Bounded 1000 (30 * day_ms) (s.lockout_base_ms scope)
  pub longest : (scope : Scope) → Bounded 1000 (30 * day_ms) (s.lockout_max_ms scope)
  pub ip_max : (scope : Scope) → Bounded 1 100_000 (s.login_ip_max scope)
  pub ip_window : (scope : Scope) → Bounded 1000 day_ms (s.login_ip_window_ms scope)
  pub username_max : (scope : Scope) → Bounded 1 100_000 (s.login_username_max scope)
  pub username_window : (scope : Scope) → Bounded 1000 day_ms (s.login_username_window_ms scope)
  pub sso_max : Bounded 1 1_000_000 s.sso_ip_max
  pub sso_window : Bounded 1000 day_ms s.sso_window_ms
  pub ban_threshold : Bounded 0 1_000_000 s.ip_ban_threshold
  pub ban_window : Bounded 1000 day_ms s.ip_ban_window_ms
  pub ban : Bounded 1000 (30 * day_ms) s.ip_ban_ms
  pub tarpit : Bounded 0 5_000 s.tarpit_base_ms

within_or-Bounded :
    (fallback min max : ℕ) (o : Option Number)
    → Bounded min max (whole fallback)
    → Bounded min max (within_or fallback min max o)
within_or-Bounded fallback min max none b = b
within_or-Bounded fallback min max (some x) b = ground (arith, b)

by_scope-Bounded :
    (scope : Scope) (min max : ℕ) (a b : Number)
    → Bounded min max a
    → Bounded min max b
    → Bounded min max (by_scope scope a b)
by_scope-Bounded admin min max a b p q = p
by_scope-Bounded end_user min max a b p q = q

module _ (number_of : Text → Option Number) (env : Environment) where
  bounded_text-Bounded :
      (text : Text) (fallback min max : ℕ)
      → Bounded min max (whole fallback)
      → Bounded min max (bounded_text number_of env text fallback min max)
  unfolding bounded_text
  bounded_text-Bounded [] fallback min max b = b
  bounded_text-Bounded (c ∷ text) fallback min max b =
      within_or-Bounded fallback min max (number number_of env (c ∷ text)) b

  bounded_int-Bounded :
      (key : String) (fallback min max : ℕ)
      → Bounded min max (whole fallback)
      → Bounded min max (bounded_int number_of env key fallback min max)
  unfolding bounded_int
  bounded_int-Bounded key fallback min max b = elim (Option-cases (env key)) [
    | inl e ↦ rw (e, bounded_int) b
    | inr (raw, e) ↦ rw (e, bounded_int) (bounded_text-Bounded (trim raw) fallback min max b)
  ]

  optional_text-Bounded :
      (text : Text) (min max : ℕ) (n : Number)
      → optional_text number_of env text min max ≡ some n
      → Bounded min max n
  unfolding optional_text
  optional_text-Bounded [] min max n h = ground (arith, h)
  optional_text-Bounded (c ∷ text) min max n h =
      elim (Option-cases (number number_of env (c ∷ text))) [
        | inl e ↦ let z = rw (e, optional_text) at h in ground (arith, z)
        | inr (m, e) ↦ let z = rw (e, optional_text) at h in ground (arith, z)
      ]

  optional_int-Bounded :
      (key : String) (min max : ℕ) (n : Number)
      → optional_int number_of env key min max ≡ some n
      → Bounded min max n
  unfolding optional_int
  optional_int-Bounded key min max n h = elim (Option-cases (env key)) [
    | inl e ↦ let z = rw (e, optional_int) at h in ground (arith, z)
    | inr (raw, e) ↦ optional_text-Bounded raw min max n (rw (e, optional_int) at h)
  ]

  scoped-Bounded :
      (scope : Scope) (key : String) (fallback min max : ℕ)
      → Bounded min max (whole fallback)
      → Bounded min max (scoped number_of env scope key fallback min max)
  unfolding scoped
  scoped-Bounded scope key fallback min max b =
      elim (Option-cases (optional_int number_of env (scoped_key scope key) min max)) [
        | inl e ↦ rw (e, scoped) (bounded_int-Bounded key fallback min max b)
        | inr (n, e) ↦ rw (e, scoped) (optional_int-Bounded (scoped_key scope key) min max n e)
      ]

  -- Whatever the environment holds, fractions included, every number of the settings is within its
  -- bounds: the limits of the throttles are at least 1, their windows and that of the bans last from
  -- a second to a day, locks and bans from a second to thirty days, the thresholds of the lockout are
  -- at most 1000 and that of the bans at most a million, the base of the tarpit's delay is at most
  -- five seconds, and the interval of the pruning at most a week.
  pub rate_limit_settings-IsSafe :
      (trusted : List String)
      → IsSafe (rate_limit_settings number_of env trusted)
        × Bounded 0 (7 * day_ms) (lockout_prune_interval_ms number_of env)
  unfolding rate_limit_settings lockout_prune_interval_ms
  rate_limit_settings-IsSafe trusted = (
    record {
      threshold = λ scope.
          scoped-Bounded scope "LOGIN_LOCKOUT_THRESHOLD" 5 0 1000 (omega arith, omega arith);
      base = λ scope.
          scoped-Bounded scope "LOGIN_LOCKOUT_BASE_MS" fifteen_min_ms 1000 (30 * day_ms)
            (omega arith, omega arith);
      longest = λ scope.
          scoped-Bounded scope "LOGIN_LOCKOUT_MAX_MS" day_ms 1000 (30 * day_ms)
            (omega arith, omega arith);
      ip_max = λ scope.
          by_scope-Bounded scope _ _ _ _
            (bounded_int-Bounded "ADMIN_LOGIN_RATE_LIMIT_MAX" 10 1 100_000
              (omega arith, omega arith))
            (bounded_int-Bounded "END_USER_LOGIN_RATE_LIMIT_MAX" 10 1 100_000
              (omega arith, omega arith));
      ip_window = λ scope.
          by_scope-Bounded scope _ _ _ _
            (bounded_int-Bounded "ADMIN_LOGIN_RATE_LIMIT_WINDOW_MS" fifteen_min_ms 1000 day_ms
              (omega arith, omega arith))
            (bounded_int-Bounded "END_USER_LOGIN_RATE_LIMIT_WINDOW_MS" fifteen_min_ms 1000 day_ms
              (omega arith, omega arith));
      username_max = λ scope.
          by_scope-Bounded scope _ _ _ _
            (bounded_int-Bounded "ADMIN_LOGIN_RATE_LIMIT_USERNAME_MAX" 5 1 100_000
              (omega arith, omega arith))
            (bounded_int-Bounded "END_USER_LOGIN_RATE_LIMIT_USERNAME_MAX" 5 1 100_000
              (omega arith, omega arith));
      username_window = λ scope.
          by_scope-Bounded scope _ _ _ _
            (bounded_int-Bounded "ADMIN_LOGIN_RATE_LIMIT_USERNAME_WINDOW_MS" fifteen_min_ms 1000
              day_ms (omega arith, omega arith))
            (bounded_int-Bounded "END_USER_LOGIN_RATE_LIMIT_USERNAME_WINDOW_MS" fifteen_min_ms 1000
              day_ms (omega arith, omega arith));
      sso_max =
          bounded_int-Bounded "SAML_SSO_RATE_IP_MAX" 60 1 1_000_000 (omega arith, omega arith);
      sso_window =
          bounded_int-Bounded "SAML_SSO_RATE_WINDOW_MS" fifteen_min_ms 1000 day_ms
            (omega arith, omega arith);
      ban_threshold =
          bounded_int-Bounded "LOGIN_IP_BAN_THRESHOLD" 10 0 1_000_000 (omega arith, omega arith);
      ban_window =
          bounded_int-Bounded "LOGIN_IP_BAN_WINDOW_MS" fifteen_min_ms 1000 day_ms
            (omega arith, omega arith);
      ban =
          bounded_int-Bounded "LOGIN_IP_BAN_MS" hour_ms 1000 (30 * day_ms)
            (omega arith, omega arith);
      tarpit = bounded_int-Bounded "LOGIN_TARPIT_BASE_MS" 0 0 5_000 (omega arith, omega arith);
    },
    bounded_int-Bounded "LOGIN_LOCKOUT_PRUNE_INTERVAL_MS" hour_ms 0 (7 * day_ms)
        (omega arith, omega arith),
  )
