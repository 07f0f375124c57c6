-- ===== src/AuthProtection/IpBan/Laws.antt =====
-- What a trip does to the ban of its address and of every other.
use nest_id_p.Base.{
  ℕ, suc, ◌+◌, ◌-◌, ◌≤◌, ◌<◌, ◌≡◌, ◌≢◌, refl, ap, ◌∙◌, inl, inr, String, Bool, true, not, ◌&&◌,
  Option, none, some, arith, leb, ltb, if◌then◌else◌, Option-cases, Bool-cases,
}
use nest_id_p.Base.Eq.{◌==◌, nat_eq, string_eq, beq-false}
use nest_id_p.Base.Maps.{
  get, Distinct, get-set, get-retain, Distinct-set, Distinct-retain, filter_value,
}
use nest_id_p.Limiter.{record_hit, hit, current_count}
use nest_id_p.Limiter.Invariant.{IsValid, hit-IsValid}
use nest_id_p.Limiter.Isolation.{current_count-check, check-limited}
use nest_id_p.Limiter.Counting.{current_count-record_hit_self}
use nest_id_p.AuthProtection.Settings.{Settings}
use nest_id_p.AuthProtection.IpBan.{
  IpBan, IpBanCheck, not_banned, prune, check, check_until, sweep, ban, record_trip,
}

pub record IsValidBan (s : IpBan) (now : ℕ) : Type 0 where
  pub trips : IsValid s.trips now
  pub bans : Distinct s.bans

-- What `check` answers, from the ban of the address.
pub answer : Option ℕ → ℕ → IpBanCheck
answer none now = not_banned
answer (some until) now =
    if ltb now until then record { banned = true; retry_after_ms = until - now } else not_banned

check_until-answer :
    (s : IpBan) (ip : String) (o : Option ℕ) (now : ℕ) → (check_until s ip o now).1 ≡ answer o now
unfolding check_until answer
check_until-answer s ip none now = refl
check_until-answer s ip (some until) now = ground arith

pub check-answer :
    (settings : Settings) (s : IpBan) (ip : String) (now : ℕ)
    → settings.ip_ban_threshold ≢ 0
    → (check settings s ip now).1 ≡ answer (get ip s.bans) now
unfolding check
check-answer settings s ip now enabled =
    rw (beq-false settings.ip_ban_threshold 0 enabled) (check_until-answer s ip (get ip s.bans) now)

answer-filter :
    (o : Option ℕ) (now later : ℕ)
    → now ≤ later
    → answer (filter_value (λ until. not (leb until now)) o) later ≡ answer o later
unfolding answer
answer-filter none now later t = refl
answer-filter (some until) now later t = ground arith

-- The sweep of ended bans changes no answer, then or later.
pub check-prune :
    (settings : Settings) (s : IpBan) (ip : String) (now later : ℕ)
    → settings.ip_ban_threshold ≢ 0
    → Distinct s.bans
    → now ≤ later
    → (check settings (prune s now).0 ip later).1 ≡ (check settings s ip later).1
unfolding prune
check-prune settings s ip now later enabled d t =
    rw
      (
        check-answer settings (prune s now).0 ip later enabled,
        check-answer settings s ip later enabled,
        get-retain (λ ip until. not (leb until now)) ip s.bans d,
      )
      (answer-filter (get ip s.bans) now later t)

answer-sweep :
    (s : IpBan) (ip : String) (now later : ℕ)
    → Distinct s.bans
    → now ≤ later
    → answer (get ip (sweep s now).bans) later ≡ answer (get ip s.bans) later
unfolding sweep prune
answer-sweep s ip now later d t = ground (
  arith,
  get-retain (λ (ip : String) (until : ℕ). not (leb until now)) ip s.bans d,
  answer-filter (get ip s.bans) now later t,
)

-- Whether a trip reaches the threshold: one more than the address had.
abbrev pub trips_reach : Settings → IpBan → String → ℕ → Bool
trips_reach settings s ip clock =
    leb settings.ip_ban_threshold (suc (current_count s.trips ip settings.ip_ban_window_ms clock))

hit-count :
    (settings : Settings) (s : IpBan) (ip : String) (clock : ℕ)
    → IsValid s.trips clock
    → 0 < settings.ip_ban_window_ms
    → current_count
        (hit s.trips ip settings.ip_ban_threshold settings.ip_ban_window_ms clock clock).0
        ip
        settings.ip_ban_window_ms
        clock
      ≡ suc (current_count s.trips ip settings.ip_ban_window_ms clock)
unfolding hit
hit-count settings s ip clock v w =
    current_count-check (record_hit s.trips ip settings.ip_ban_window_ms clock) ip ip
      settings.ip_ban_threshold settings.ip_ban_window_ms clock clock (omega arith)
    ∙ current_count-record_hit_self s.trips ip settings.ip_ban_window_ms clock v w

hit-limited :
    (settings : Settings) (s : IpBan) (ip : String) (clock : ℕ)
    → settings.ip_ban_threshold ≢ 0
    → IsValid s.trips clock
    → 0 < settings.ip_ban_window_ms
    → (hit s.trips ip settings.ip_ban_threshold settings.ip_ban_window_ms clock clock).1.limited
      ≡ trips_reach settings s ip clock
unfolding hit
hit-limited settings s ip clock enabled v w =
    check-limited (record_hit s.trips ip settings.ip_ban_window_ms clock) ip
      settings.ip_ban_threshold settings.ip_ban_window_ms clock (omega arith)
    ∙ ap (leb settings.ip_ban_threshold)
        (current_count-record_hit_self s.trips ip settings.ip_ban_window_ms clock v w)

answer-ban :
    (settings : Settings) (s : IpBan) (ip j : String) (count now later : ℕ)
    → Distinct s.bans
    → now ≤ later
    → answer (get j (ban settings s ip count now).0.bans) later ≡ (
        if ip == j
        then answer (some (now + settings.ip_ban_ms)) later
        else answer (get j s.bans) later)
unfolding ban
answer-ban settings s ip j count now later d t = elim (Bool-cases (ip == j)) [
  | inl same ↦ rw (get-set ip j (now + settings.ip_ban_ms) (sweep s now).bans, same) refl
  | inr other ↦
      rw (get-set ip j (now + settings.ip_ban_ms) (sweep s now).bans, other)
        (answer-sweep s j now later d t)
]

-- The counted trips of an address, and the bans as they were.
abbrev counted : Settings → IpBan → String → ℕ → IpBan
counted settings s ip clock = record s {
  trips = (hit s.trips ip settings.ip_ban_threshold settings.ip_ban_window_ms clock clock).0;
}

answer-record_trip :
    (settings : Settings) (s : IpBan) (ip j : String) (now clock later : ℕ)
    → settings.ip_ban_threshold ≢ 0
    → 0 < settings.ip_ban_window_ms
    → IsValidBan s clock
    → now ≤ later
    → answer (get j (record_trip settings s ip now clock).0.bans) later ≡ (
        if ip == j && trips_reach settings s ip clock
        then answer (some (now + settings.ip_ban_ms)) later
        else answer (get j s.bans) later)
unfolding record_trip ban
answer-record_trip settings s ip j now clock later enabled w v t =
    elim (Bool-cases (trips_reach settings s ip clock)) [
      | inl reached ↦
          let lim = hit-limited settings s ip clock enabled v.trips w ∙ reached in
          rw (beq-false settings.ip_ban_threshold 0 enabled, record_trip, lim, reached)
            (answer-ban settings (counted settings s ip clock) ip j
                (current_count (counted settings s ip clock).trips ip settings.ip_ban_window_ms
                  clock)
                now later v.bans t
              ∙ ground arith)
      | inr below ↦
          let lim = hit-limited settings s ip clock enabled v.trips w ∙ below in
          rw (beq-false settings.ip_ban_threshold 0 enabled, record_trip, lim, below) (ground arith)
    ]

-- A trip bans its address exactly when it is the last of as many trips within the window as the
-- threshold asks for; the ban then answers from `now` on until the ban time has passed. In every
-- other case, and for every other address, the check answers at any later time as before the trip.
pub check-record_trip :
    (settings : Settings) (s : IpBan) (ip j : String) (now clock later : ℕ)
    → settings.ip_ban_threshold ≢ 0
    → 0 < settings.ip_ban_window_ms
    → IsValidBan s clock
    → now ≤ later
    → (check settings (record_trip settings s ip now clock).0 j later).1.banned ≡ (
        if ip == j && trips_reach settings s ip clock
        then ltb later (now + settings.ip_ban_ms)
        else (check settings s j later).1.banned)
unfolding answer
check-record_trip settings s ip j now clock later enabled w v t =
    rw
      (
        check-answer settings (record_trip settings s ip now clock).0 j later enabled,
        answer-record_trip settings s ip j now clock later enabled w v t,
        check-answer settings s j later enabled,
      )
      (ground arith)

-- A trip is reported as a new ban exactly when it reaches the threshold and the address was not
-- banned already, and its count is one more than before.
record_trip_reports :
    (settings : Settings) (s : IpBan) (ip : String) (now clock : ℕ)
    → settings.ip_ban_threshold ≢ 0
    → 0 < settings.ip_ban_window_ms
    → IsValidBan s clock
    → ((record_trip settings s ip now clock).1.banned_now
        ≡ (trips_reach settings s ip clock && not (check settings s ip now).1.banned))
      × ((record_trip settings s ip now clock).1.count
          ≡ suc (current_count s.trips ip settings.ip_ban_window_ms clock))
unfolding record_trip ban answer
record_trip_reports settings s ip now clock enabled w v =
    elim (Bool-cases (trips_reach settings s ip clock)) [
      | inl reached ↦
          let lim = hit-limited settings s ip clock enabled v.trips w ∙ reached in
          rw
            (
              beq-false settings.ip_ban_threshold 0 enabled,
              record_trip,
              lim,
              reached,
              check-answer settings s ip now enabled,
              hit-count settings s ip clock v.trips w,
            )
            (elim (Option-cases (get ip s.bans)) [
              | inl e ↦ (rw (e, answer) refl, refl)
              | inr (until, e) ↦ (rw (e, answer) (ground arith), refl)
            ])
      | inr below ↦
          let lim = hit-limited settings s ip clock enabled v.trips w ∙ below in
          rw
            (
              beq-false settings.ip_ban_threshold 0 enabled,
              record_trip,
              lim,
              below,
              hit-count settings s ip clock v.trips w,
            )
            (refl, refl)
    ]

sweep-Distinct : (s : IpBan) (now : ℕ) → Distinct s.bans → Distinct (sweep s now).bans
unfolding sweep prune
sweep-Distinct s now d =
    ground (arith, Distinct-retain (λ (ip : String) (until : ℕ). not (leb until now)) s.bans d)

trips-sweep : (s : IpBan) (now : ℕ) → (sweep s now).trips ≡ s.trips
unfolding sweep prune
trips-sweep s now = ground arith

ban-IsValidBan :
    (settings : Settings) (s : IpBan) (ip : String) (count now clock : ℕ)
    → IsValidBan s clock
    → IsValidBan (ban settings s ip count now).0 clock
unfolding ban
ban-IsValidBan settings s ip count now clock v = record {
  trips = rw (trips-sweep s now) v.trips;
  bans =
      Distinct-set ip (now + settings.ip_ban_ms) (sweep s now).bans (sweep-Distinct s now v.bans);
}

-- Trips keep the addresses distinct and the counts of trips well formed.
pub record_trip-IsValidBan :
    (settings : Settings) (s : IpBan) (ip : String) (now clock : ℕ)
    → IsValidBan s clock
    → IsValidBan (record_trip settings s ip now clock).0 clock
unfolding record_trip
record_trip-IsValidBan settings s ip now clock v =
    let w : IsValidBan (counted settings s ip clock) clock = record {
      trips =
          hit-IsValid s.trips ip settings.ip_ban_threshold settings.ip_ban_window_ms clock clock
            (omega arith) v.trips;
      bans = v.bans;
    } in
    elim (Bool-cases (settings.ip_ban_threshold == 0)) [
      | inl off ↦ rw (off, record_trip) v
      | inr on ↦
          elim (Bool-cases
            (hit s.trips ip settings.ip_ban_threshold settings.ip_ban_window_ms clock
              clock).1.limited) [
                | inl lim ↦
                    rw (on, record_trip, lim)
                      (ban-IsValidBan settings (counted settings s ip clock) ip
                        (current_count (counted settings s ip clock).trips ip
                          settings.ip_ban_window_ms clock)
                        now clock w)
                | inr free ↦ rw (on, record_trip, free) w
              ]
    ]
