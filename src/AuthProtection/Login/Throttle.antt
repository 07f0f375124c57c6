-- ===== src/AuthProtection/Login/Throttle.antt =====
-- How many passwords of one account can be tried within a window.
use nest_id_p.Limiter.Counting.{record_hit-Distinct}
use nest_id_p.AuthProtection.Login.Keys.{ip_key-ne-username_key}
use nest_id_p.Base.{
  ℕ, ◌+◌, ◌<◌, ◌≡◌, ◌≢◌, ◌∙◌, inl, inr, String, Option, some, Bool-cases, ◌≤◌, arith,
}
use nest_id_p.Base.Eq.{string_eq}
use nest_id_p.Base.Maps.{get, Distinct}
use nest_id_p.Base.Text.{Text}
use nest_id_p.Limiter.{Bucket, Limiter, check}
use nest_id_p.Limiter.Isolation.{
  get-check_ne, get-check_live, check-Distinct, get-record_hit_ne, get-record_hit_live,
}
use nest_id_p.AuthProtection.Settings.{Scope, Settings}
use nest_id_p.AuthProtection.Lockout.{record_failure}
use nest_id_p.AuthProtection.Login.{
  account, record_login_failure, precheck_login, ban_stage, ip_stage, Protection, Surface, login,
  username_key, trip, throttled, lockout_stage, username_stage, ip_key, is_trusted, record_hit,
}
use nest_id_p.AuthProtection.Login.Order.{throttle-trip, name_limited, locked, banned, ip_limited}

-- The counter of `key` holds `b`.
pub record Counts (key : String) (b : Bucket) (l : Limiter) : Type 0 where
  pub bucket : get key l.buckets ≡ some b
  pub distinct : Distinct l.buckets

-- Another key, or a window that is open for the bucket.

Counts-check_ne :
    (key other : String) (b : Bucket) (l : Limiter) (max window_ms now : ℕ)
    → other ≢ key
    → Counts key b l
    → Counts key b (check l other max window_ms now).0
Counts-check_ne key other b l max window_ms now ne c = record {
  bucket = get-check_ne l other key max window_ms now ne ∙ c.bucket;
  distinct = check-Distinct l other max window_ms now c.distinct;
}

module _ (number_of : Text → Option ℕ) (settings : Settings) where
  -- The counter of the name, while its window is open.
  module _ (scope : Scope) (name client_ip : String) (now : ℕ) (b : Bucket)
      (open_until : now < b.window_start_ms + settings.login_username_window_ms scope) where
    Counts-trip :
        (surface : Surface) (p : Protection)
        → Counts (username_key scope name) b p.throttle
        → Counts
            (username_key scope name)
            b
            (trip number_of settings surface client_ip now p).throttle
    Counts-trip surface p c = rw ((throttle-trip number_of settings surface client_ip now p).0) c

    Counts-lockout_stage :
        (p : Protection)
        → Counts (username_key scope name) b p.throttle
        → Counts
            (username_key scope name)
            b
            (lockout_stage number_of settings scope name client_ip now p).0.throttle
    unfolding lockout_stage
    Counts-lockout_stage p c = elim (Bool-cases (locked number_of settings scope name now p)) [
      | inl out ↦ rw (out, lockout_stage) (Counts-trip (login scope) p c)
      | inr free ↦ rw (free, lockout_stage) c
    ]

    Counts-username_stage :
        (p : Protection)
        → Counts (username_key scope name) b p.throttle
        → Counts
            (username_key scope name)
            b
            (username_stage number_of settings scope name client_ip now p).0.throttle
    unfolding username_stage throttled
    Counts-username_stage p c =
        let (same, limited) =
          get-check_live p.throttle (username_key scope name) b (settings.login_username_max scope)
            (settings.login_username_window_ms scope) now c.bucket open_until in
        elim (Bool-cases (name_limited number_of settings scope name now p)) [
          | inl over ↦ rw (over, username_stage, same) (Counts-trip (login scope) _ c)
          | inr under ↦ rw (under, username_stage, same) (Counts-lockout_stage _ c)
        ]

    Counts-ip_stage :
        (p : Protection)
        → Counts (username_key scope name) b p.throttle
        → Counts
            (username_key scope name)
            b
            (ip_stage number_of settings scope name client_ip now p).0.throttle
    unfolding ip_stage throttled
    Counts-ip_stage p c =
        let kept =
          Counts-check_ne (username_key scope name) (ip_key (login scope) client_ip) b p.throttle
            (settings.login_ip_max scope) (settings.login_ip_window_ms scope) now
            (ip_key-ne-username_key (login scope) scope client_ip name) c in
        elim (Bool-cases (ip_limited number_of settings scope client_ip now p)) [
          | inl over ↦ rw (over, ip_stage) (Counts-trip (login scope) _ kept)
          | inr under ↦ rw (under, ip_stage) (Counts-username_stage _ kept)
        ]

    pub Counts-precheck_login :
        (p : Protection)
        → Counts (username_key scope name) b p.throttle
        → Counts
            (username_key scope name)
            b
            (precheck_login number_of settings scope name client_ip now p).0.throttle
    unfolding precheck_login ban_stage
    Counts-precheck_login p c = elim (Bool-cases (is_trusted number_of settings client_ip)) [
      | inl trusted ↦ rw (trusted, precheck_login) (Counts-lockout_stage p c)
      | inr stranger ↦ elim (Bool-cases (banned number_of settings client_ip now p)) [
        | inl out ↦ rw (stranger, precheck_login, out) c
        | inr free ↦ rw (stranger, precheck_login, free) (Counts-ip_stage _ c)
      ]
    ]

    -- A failed login counts one more for its name.
    pub Counts-record_login_failure :
        (p : Protection)
        → settings.login_username_window_ms scope ≤ settings.login_ip_window_ms scope
        → Counts (username_key scope name) b p.throttle
        → Counts
            (username_key scope name)
            (record { count = b.count + 1; window_start_ms = b.window_start_ms })
            (record_login_failure number_of settings scope name client_ip now p).0.throttle
    unfolding record_login_failure
    Counts-record_login_failure p longer c =
        let by_ip =
          record_hit p.throttle (ip_key (login scope) client_ip) (settings.login_ip_window_ms scope)
            now in
        let kept =
          get-record_hit_ne p.throttle (ip_key (login scope) client_ip) (username_key scope name) b
            (settings.login_ip_window_ms scope) now c.distinct
            (ip_key-ne-username_key (login scope) scope client_ip name) c.bucket (omega arith) in
        let ordered =
          record_hit-Distinct p.throttle (ip_key (login scope) client_ip)
            (settings.login_ip_window_ms scope) now c.distinct in
        let counted : Counts (username_key scope name)
            (record { count = b.count + 1; window_start_ms = b.window_start_ms })
            (record_hit by_ip (username_key scope name) (settings.login_username_window_ms scope)
              now) =
          record {
            bucket =
                get-record_hit_live by_ip (username_key scope name) b
                  (settings.login_username_window_ms scope) now ordered kept open_until;
            distinct =
                record_hit-Distinct by_ip (username_key scope name)
                  (settings.login_username_window_ms scope) now ordered;
          } in
        elim (Bool-cases
          (record_failure settings p.lockouts (account scope name) now).1.locked_now) [
            | inl lock ↦
                rw (lock, record_login_failure)
                  (rw ((throttle-trip number_of settings (login scope) client_ip now _).0) counted)
            | inr free ↦ rw (free, record_login_failure) counted
          ]
