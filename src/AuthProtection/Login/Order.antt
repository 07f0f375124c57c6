-- ===== src/AuthProtection/Login/Order.antt =====
-- Which logins and SSO requests the checks let through, and what they leave alone.
use nest_id_p.Base.{
  ℕ, ◌≡◌, refl, ◌∙◌, ap, inl, inr, String, Bool, true, not, ◌&&◌, ◌||◌, Option, arith, Bool-cases,
}
use nest_id_p.Base.Text.{Text}
use nest_id_p.Limiter
use nest_id_p.Limiter.{SlidingWindowResult}
use nest_id_p.Limiter.Isolation.{check-check_ne}
use nest_id_p.AuthProtection.Settings.{Scope, Settings}
use nest_id_p.AuthProtection.Lockout
use nest_id_p.AuthProtection.IpBan
use nest_id_p.AuthProtection.Login.{
  Protection, Surface, login, account, ip_key, username_key, is_trusted, trip, lockout_stage,
  username_stage, ip_stage, ban_stage, precheck_login,
}
use nest_id_p.AuthProtection.Login.Keys.{ip_key-ne-username_key}

module _ (number_of : Text → Option ℕ) (settings : Settings) where
  -- What the four checks of a login answer on a state.
  abbrev pub name_limited : Scope → String → ℕ → Protection → Bool
  name_limited scope name now p =
      (Limiter.check p.throttle (username_key scope name) (settings.login_username_max scope)
        (settings.login_username_window_ms scope) now).1.limited

  abbrev pub ip_limited : Scope → String → ℕ → Protection → Bool
  ip_limited scope client_ip now p =
      (Limiter.check p.throttle (ip_key (login scope) client_ip) (settings.login_ip_max scope)
        (settings.login_ip_window_ms scope) now).1.limited

  abbrev pub banned : String → ℕ → Protection → Bool
  banned client_ip now p = (IpBan.check settings p.ip_ban client_ip now).1.banned

  abbrev pub locked : Scope → String → ℕ → Protection → Bool
  locked scope name now p = (Lockout.check settings p.lockouts (account scope name) now).locked

  allowed-lockout_stage :
      (scope : Scope) (name client_ip : String) (now : ℕ) (p : Protection)
      → (lockout_stage number_of settings scope name client_ip now p).1.allowed
        ≡ not (locked scope name now p)
  unfolding lockout_stage
  allowed-lockout_stage scope name client_ip now p = ground arith

  allowed-username_stage :
      (scope : Scope) (name client_ip : String) (now : ℕ) (p : Protection)
      → (username_stage number_of settings scope name client_ip now p).1.allowed
        ≡ (not (name_limited scope name now p) && not (locked scope name now p))
  unfolding username_stage
  allowed-username_stage scope name client_ip now p =
      elim (Bool-cases (name_limited scope name now p)) [
        | inl over ↦ rw (over, username_stage) refl
        | inr under ↦ rw (under, username_stage) (allowed-lockout_stage scope name client_ip now _)
      ]

  allowed-ip_stage :
      (scope : Scope) (name client_ip : String) (now : ℕ) (p : Protection)
      → (ip_stage number_of settings scope name client_ip now p).1.allowed ≡ (
          not (ip_limited scope client_ip now p)
          && (not (name_limited scope name now p) && not (locked scope name now p)))
  unfolding ip_stage
  allowed-ip_stage scope name client_ip now p =
      elim (Bool-cases (ip_limited scope client_ip now p)) [
        | inl over ↦ rw (over, ip_stage) refl
        | inr under ↦
            rw (under, ip_stage)
              (allowed-username_stage scope name client_ip now _
                ∙ ap (λ (r : SlidingWindowResult). not r.limited && not (locked scope name now p))
                    (check-check_ne p.throttle (ip_key (login scope) client_ip)
                      (username_key scope name) (settings.login_ip_max scope)
                      (settings.login_ip_window_ms scope) now (settings.login_username_max scope)
                      (settings.login_username_window_ms scope) now
                      (ip_key-ne-username_key (login scope) scope client_ip name)))
      ]

  -- A login goes on to its password exactly when its account is not locked and, unless the address
  -- is trusted, the address is neither banned nor at its limit and the name is not at its limit.
  pub allowed-precheck_login :
      (scope : Scope) (name client_ip : String) (now : ℕ) (p : Protection)
      → (precheck_login number_of settings scope name client_ip now p).1.allowed ≡ (
          (is_trusted number_of settings client_ip
            || (not (banned client_ip now p)
                && (not (ip_limited scope client_ip now p) && not (name_limited scope name now p))))
          && not (locked scope name now p))
  unfolding precheck_login ban_stage
  allowed-precheck_login scope name client_ip now p =
      elim (Bool-cases (is_trusted number_of settings client_ip)) [
        | inl trusted ↦
            rw (trusted, precheck_login) (allowed-lockout_stage scope name client_ip now p)
        | inr stranger ↦ elim (Bool-cases (banned client_ip now p)) [
          | inl out ↦ rw (stranger, precheck_login, out) refl
          | inr free ↦
              rw (stranger, precheck_login, free)
                (allowed-ip_stage scope name client_ip now _ ∙ ground arith)
        ]
      ]

  pub throttle-trip :
      (surface : Surface) (client_ip : String) (now : ℕ) (p : Protection)
      → ((trip number_of settings surface client_ip now p).throttle ≡ p.throttle)
        × ((trip number_of settings surface client_ip now p).lockouts ≡ p.lockouts)
  unfolding trip
  throttle-trip surface client_ip now p = ground arith

  -- The checks before the password of a login from a trusted address change nothing, whether they
  -- let it through or refuse it: no throttle, no ban, no lockout and no log. What follows the password
  -- is not part of this.
  pub precheck_login_trusted :
      (scope : Scope) (name client_ip : String) (now : ℕ) (p : Protection)
      → is_trusted number_of settings client_ip ≡ true
      → (precheck_login number_of settings scope name client_ip now p).0 ≡ p
  unfolding precheck_login lockout_stage trip
  precheck_login_trusted scope name client_ip now p trusted = ground arith

  lockouts-lockout_stage :
      (scope : Scope) (name client_ip : String) (now : ℕ) (p : Protection)
      → (lockout_stage number_of settings scope name client_ip now p).0.lockouts ≡ p.lockouts
  unfolding lockout_stage
  lockouts-lockout_stage scope name client_ip now p = elim (Bool-cases (locked scope name now p)) [
    | inl yes_locked ↦
        rw (yes_locked, lockout_stage) (throttle-trip (login scope) client_ip now p).1
    | inr free ↦ rw (free, lockout_stage) refl
  ]
