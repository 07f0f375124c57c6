-- ===== src/Examples/ProtectionExamples.antt =====
-- The login protection on concrete inputs.
use nest_id_p.Base.{
  ℕ, ◌+◌, ◌≤◌, ◌≡◌, refl, String, true, false, not, ◌&&◌, ◌||◌, Option, none, some, List, [], ◌∷◌,
  arith, leb, ltb, if◌then◌else◌,
}
use nest_id_p.Base.Eq.{string_eq, contains, ◌==◌}
use nest_id_p.Base.Maps.{get, set}
use nest_id_p.Base.Text.{Text, codes, text_beq}
use nest_id_p.Limiter.Invariant.{fresh_limiter-IsValid}
use nest_id_p.AuthProtection.Settings.{admin, Settings, default_settings}
use nest_id_p.AuthProtection.Lockout.{
  LockoutKey, LockoutRow, Table, lockout_key_eq, check, failed_row, record_failure, backoff, prune,
  get_status, get_status_many,
}
use nest_id_p.AuthProtection.Lockout.History.{
  Event, failed, run, tally, check-run, check-run_expires,
}
use nest_id_p.AuthProtection.Config.{
  rate_limit_settings, lockout_prune_interval_ms, Number, Environment, scoped, optional_int,
  optional_text, number,
}
use nest_id_p.AuthProtection.Config.Bounds.{IsSafe, Bounded, rate_limit_settings-IsSafe}
use nest_id_p.AuthProtection.Lockout.Prune.{check-prune, get-prune_recent}
use nest_id_p.AuthProtection.Lockout.Status.{
  get_status-check, get_status-disabled, get-get_status_many,
}
use nest_id_p.AuthProtection.IpBan
use nest_id_p.AuthProtection.IpBan.{IpBan, no_bans, record_trip}
use nest_id_p.AuthProtection.IpBan.Laws.{IsValidBan, trips_reach, check-record_trip}
use nest_id_p.AuthProtection.Login.{Protection, start, is_trusted, precheck_login, username_key}
use nest_id_p.AuthProtection.Login.Order.{
  allowed-precheck_login, precheck_login_trusted, banned, ip_limited, name_limited, locked,
}
use nest_id_p.AuthProtection.Login.Guesses.{Guess, guesses, guesses-le-max}

abbrev root : LockoutKey
root = record { scope = admin; username_key = "root" }

abbrev guest : LockoutKey
guest = record { scope = admin; username_key = "guest" }

abbrev five_failures : List Event
five_failures =
    failed root 10
    ∷ failed root 20
    ∷ failed guest 25
    ∷ failed root 30
    ∷ failed root 40
    ∷ failed root 50
    ∷ []

-- The fifth failure locks for 15 minutes, the sixth for 30.
locked_after_five :
    (record_failure default_settings
      (set root
        (record {
          failed_count = 4;
          locked_until = none;
          last_failed_at = some 40;
          last_locked_at = none;
        })
        [])
      root
      50).1
    ≡ record { locked_now = true; failed_count = 5; locked_until = some 900_050 }
unfolding record_failure get set backoff failed_row
locked_after_five = refl

check-run_example :
    (check default_settings (run default_settings [] five_failures) root 60).locked
    ≡ (leb 5 5 && ltb 60 (50 + backoff default_settings admin 5))
unfolding tally
check-run_example = check-run default_settings root five_failures 60 (omega arith)

check-run_expires_example :
    (check default_settings (run default_settings [] five_failures) root 86_400_050).locked ≡ false
unfolding tally
check-run_expires_example =
    check-run_expires default_settings root five_failures 86_400_050 (omega arith)

abbrev locked_row : LockoutRow
locked_row = record {
  failed_count = 5;
  locked_until = some 900_050;
  last_failed_at = some 50;
  last_locked_at = some 50;
}

abbrev locked_table : Table
locked_table = (root, locked_row) ∷ []

check-prune_example :
    check default_settings (prune default_settings locked_table 800_000).0 root 900_000
    ≡ check default_settings locked_table root 900_000
unfolding get
check-prune_example =
    check-prune default_settings locked_table root 800_000 900_000 (refl, tt) (omega arith)

get-prune_recent_example :
    get root (prune default_settings locked_table 80_000_000).0 ≡ some locked_row
unfolding get
get-prune_recent_example =
    get-prune_recent default_settings locked_table root locked_row 900_050 80_000_000 (refl, tt)
      refl refl (omega arith)

get_status-check_example :
    (get_status locked_table root 60).locked ≡ (check default_settings locked_table root 60).locked
get_status-check_example = get_status-check default_settings locked_table root 60 (omega arith)

abbrev lockout_off : Settings
lockout_off = record default_settings { lockout_threshold = λ s. 0 }

get_status-disabled_example :
    ((check lockout_off locked_table root 60).locked ≡ false)
    × ((get_status locked_table root 60).locked ≡ true)
unfolding get
get_status-disabled_example =
    get_status-disabled lockout_off locked_table root 900_050 60 refl refl (omega arith)

get-get_status_many_example :
    get "root" (get_status_many locked_table admin ("guest" ∷ "root" ∷ []) 60) ≡ (
      if contains {A = String} "root" ("guest" ∷ "root" ∷ [])
      then some (get_status locked_table root 60)
      else none)
get-get_status_many_example =
    get-get_status_many locked_table admin ("guest" ∷ "root" ∷ []) 60 "root"

abbrev one_trip : Settings
one_trip = record default_settings { ip_ban_threshold = 1 }

no_bans-IsValidBan : IsValidBan no_bans 5
no_bans-IsValidBan = record { trips = fresh_limiter-IsValid 5; bans = tt }

check-record_trip_example :
    (IpBan.check one_trip (record_trip one_trip no_bans "1.2.3.4" 5 5).0 "1.2.3.4" 9).1.banned ≡ (
      if ◌==◌ {A = String} "1.2.3.4" "1.2.3.4" && trips_reach one_trip no_bans "1.2.3.4" 5
      then ltb 9 (5 + 3_600_000)
      else (IpBan.check one_trip no_bans "1.2.3.4" 9).1.banned)
check-record_trip_example =
    check-record_trip one_trip no_bans "1.2.3.4" "1.2.3.4" 5 5 9 (omega arith) (omega arith)
      no_bans-IsValidBan (omega arith)

abbrev no_number : Text → Option ℕ
no_number s = none

allowed-precheck_login_example :
    (precheck_login no_number default_settings admin "root" "1.2.3.4" 5 start).1.allowed ≡ (
      (is_trusted no_number default_settings "1.2.3.4"
        || (not (banned no_number default_settings "1.2.3.4" 5 start)
            && (not (ip_limited no_number default_settings admin "1.2.3.4" 5 start)
                && not (name_limited no_number default_settings admin "root" 5 start))))
      && not (locked no_number default_settings admin "root" 5 start))
allowed-precheck_login_example =
    allowed-precheck_login no_number default_settings admin "root" "1.2.3.4" 5 start

abbrev office : Settings
office = record default_settings { trusted_cidrs = "10.0.0.1" ∷ [] }

precheck_login_trusted_example :
    (precheck_login no_number office admin "root" "10.0.0.1" 5 start).0 ≡ start
unfolding is_trusted
precheck_login_trusted_example =
    precheck_login_trusted no_number office admin "root" "10.0.0.1" 5 start refl

abbrev tried_twice : Protection
tried_twice = record start {
  throttle = record {
    buckets = (username_key admin "root", record { count = 2; window_start_ms = 5 }) ∷ [];
    last_prune_ms = 0;
  };
}

abbrev spray : List Guess
spray = record { client_ip = "1.2.3.4"; at = 10 } ∷ record { client_ip = "5.6.7.8"; at = 11 } ∷ []

guesses-le-max_example :
    2 + (guesses no_number default_settings admin "root" spray tried_twice).1 ≤ 5
unfolding is_trusted get username_key
guesses-le-max_example =
    guesses-le-max no_number default_settings admin "root" spray
      (record { count = 2; window_start_ms = 5 }) tried_twice (omega arith)
      ((refl, omega arith), ((refl, omega arith), tt))
      (record { bucket = refl; distinct = (refl, tt) }) (omega arith)

-- An environment in which every key is 7.
-- `Number` of a text that is not made of digits.
abbrev fraction : Text → Option Number
fraction text =
    if text_beq text (codes "1000.5") then some (record { numerator = 2001; twos = 1 }) else none

-- Every variable is the same fraction.
abbrev everywhere : Environment
everywhere key = some (codes "1000.5")

rate_limit_settings-IsSafe_example :
    IsSafe (rate_limit_settings fraction everywhere [])
    × Bounded 0 604_800_000 (lockout_prune_interval_ms fraction everywhere)
rate_limit_settings-IsSafe_example = rate_limit_settings-IsSafe fraction everywhere []

-- The fraction is taken where it is within the bounds.
lockout_base_ms_fraction :
    (rate_limit_settings fraction everywhere []).lockout_base_ms admin
    ≡ record { numerator = 2001; twos = 1 }
unfolding rate_limit_settings scoped optional_int optional_text number
lockout_base_ms_fraction = refl
