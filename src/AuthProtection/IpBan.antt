-- ===== src/AuthProtection/IpBan.antt =====
-- apps/api/src/auth-protection/ip-ban.service.ts: the ban of an address that trips the limits too
-- often, over all the login surfaces. `now` is the time that a caller may pass, `clock` what the
-- limiter of trips reads.
pub mod Laws
use nest_id_p.Base.{
  ℕ, ◌+◌, ◌-◌, String, Bool, true, false, not, Option, none, some, [], leb, ltb, if◌then◌else◌,
  length,
}
use nest_id_p.Base.Eq.{◌==◌, nat_eq, string_eq}
use nest_id_p.Base.Maps.{Map, get, set, delete, retain}
use nest_id_p.Limiter.{Limiter, fresh_limiter, hit, current_count, clear as clear_limiter}
use nest_id_p.AuthProtection.Settings.{Settings}

pub record IpBanCheck : Type 0 where
  pub banned : Bool
  pub retry_after_ms : ℕ

pub record IpBanTripResult : Type 0 where
  pub banned_now : Bool
  pub count : ℕ
  pub banned_until : Option ℕ

pub record IpBan : Type 0 where
  pub trips : Limiter
  pub bans : Map String ℕ

abbrev pub no_bans : IpBan
no_bans = record { trips = fresh_limiter; bans = [] }

abbrev pub max_tracked_banned_ips : ℕ
max_tracked_banned_ips = 50_000

abbrev pub not_banned : IpBanCheck
not_banned = record { banned = false; retry_after_ms = 0 }

unfoldable pub prune : IpBan → ℕ → IpBan × ℕ
prune s now =
    let left = retain (λ ip until. not (leb until now)) s.bans in
    (record s { bans = left }, length s.bans - length left)

check_until : IpBan → String → Option ℕ → ℕ → IpBan × IpBanCheck
check_until s ip none now = (s, not_banned)
check_until s ip (some until) now =
    if ltb now until
    then (s, record { banned = true; retry_after_ms = until - now })
    else (record s { bans = delete ip s.bans }, not_banned)

unfoldable pub check : Settings → IpBan → String → ℕ → IpBan × IpBanCheck
unfolding check_until
check settings s ip now =
    if settings.ip_ban_threshold == 0 then (s, not_banned) else check_until s ip (get ip s.bans) now

-- `(this.bans.get(ip) ?? 0) > now`.
abbrev pub is_banned : Option ℕ → ℕ → Bool
is_banned none now = false
is_banned (some until) now = ltb now until

-- `if (this.bans.size >= MAX_TRACKED_BANNED_IPS) this.prune(now)`.
sweep : IpBan → ℕ → IpBan
sweep s now = if leb max_tracked_banned_ips (length s.bans) then (prune s now).0 else s

-- The ban itself: what follows `if (!limited)`.
ban : Settings → IpBan → String → ℕ → ℕ → IpBan × IpBanTripResult
unfolding sweep
ban settings s ip count now =
    let swept = sweep s now in
    (
      record swept { bans = set ip (now + settings.ip_ban_ms) swept.bans },
      record {
        banned_now = not (is_banned (get ip s.bans) now);
        count = count;
        banned_until = some (now + settings.ip_ban_ms);
      },
    )

unfoldable pub record_trip : Settings → IpBan → String → ℕ → ℕ → IpBan × IpBanTripResult
unfolding ban
record_trip settings s ip now clock =
    if settings.ip_ban_threshold == 0
    then (s, record { banned_now = false; count = 0; banned_until = none })
    else (let (trips, result) =
          hit s.trips ip settings.ip_ban_threshold settings.ip_ban_window_ms clock clock in
        let counted = record s { trips = trips } in
        let count = current_count trips ip settings.ip_ban_window_ms clock in
        if result.limited
        then ban settings counted ip count now
        else (counted, record { banned_now = false; count = count; banned_until = none }))

pub clear : IpBan → IpBan
clear s = record { trips = clear_limiter s.trips; bans = [] }
