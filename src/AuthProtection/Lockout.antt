-- ===== src/AuthProtection/Lockout.antt =====
-- apps/api/src/auth-protection/account-lockout.service.ts: the persistent lock of an account after
-- consecutive failures. The `LoginLockout` table has a unique index on (scope, usernameKey) and is
-- a map from that pair to the row; the database is the map, and its calls are atomic. Times are in
-- milliseconds since the epoch; `a - b > 0` on times is written `b < a`.
pub mod History
pub mod Prune
pub mod Status
use nest_id_p.Base.{
  ℕ, suc, ◌+◌, ◌-◌, ◌*◌, ◌^◌, ◌≡◌, ◌↔◌, min, max, String, Bool, true, false, not, ◌&&◌, ◌||◌,
  Option, none, some, List, [], ◌∷◌, arith, leb, ltb, if◌then◌else◌, length, keep,
}
use nest_id_p.Base.Eq.{Eq, ◌==◌, nat_eq, string_eq, contains}
use nest_id_p.Base.Maps.{Map, get, set, delete, retain}
use nest_id_p.AuthProtection.Settings.{
  Scope, admin, end_user, Settings, scope_beq, scope_beq_iff, scope_eq,
}

pub record LockoutKey : Type 0 where
  pub scope : Scope
  pub username_key : String

abbrev pub lockout_key_beq : LockoutKey → LockoutKey → Bool
lockout_key_beq a b = a.scope == b.scope && a.username_key == b.username_key

pub lockout_key_beq_iff : (a b : LockoutKey) → (lockout_key_beq a b ≡ true) ↔ (a ≡ b)
lockout_key_beq_iff a b =
    ground (arith, scope_beq_iff a.scope b.scope, string_eq.beq_iff a.username_key b.username_key)

instance abbrev pub lockout_key_eq : Eq LockoutKey
lockout_key_eq = record { beq = lockout_key_beq; beq_iff = lockout_key_beq_iff }

pub record LockoutRow : Type 0 where
  pub failed_count : ℕ
  pub locked_until : Option ℕ
  pub last_failed_at : Option ℕ
  pub last_locked_at : Option ℕ

abbrev pub Table : Type 0
Table = Map LockoutKey LockoutRow

pub record LockoutCheck : Type 0 where
  pub locked : Bool
  pub locked_until : Option ℕ
  pub retry_after_ms : ℕ

pub record LockoutFailureResult : Type 0 where
  pub locked_now : Bool
  pub failed_count : ℕ
  pub locked_until : Option ℕ

pub record LockoutStatus : Type 0 where
  pub locked : Bool
  pub locked_until : Option ℕ
  pub failed_count : ℕ
  pub last_failed_at : Option ℕ

abbrev pub not_locked : LockoutCheck
not_locked = record { locked = false; locked_until = none; retry_after_ms = 0 }

-- `row?.lockedUntil`.
abbrev pub lock_of : Option LockoutRow → Option ℕ
lock_of none = none
lock_of (some row) = row.locked_until

check_until : Option ℕ → ℕ → LockoutCheck
check_until none now = not_locked
check_until (some until) now =
    if ltb now until
    then record { locked = true; locked_until = some until; retry_after_ms = until - now }
    else not_locked

unfoldable pub check : Settings → Table → LockoutKey → ℕ → LockoutCheck
unfolding check_until
check settings table key now =
    if settings.lockout_threshold key.scope == 0
    then not_locked
    else check_until (lock_of (get key table)) now

-- The `upsert` of `recordFailure`: the row after one more failure.
unfoldable pub failed_row : Option LockoutRow → ℕ → LockoutRow
failed_row none now = record {
  failed_count = 1;
  locked_until = none;
  last_failed_at = some now;
  last_locked_at = none;
}
failed_row (some row) now = record row {
  failed_count = row.failed_count + 1;
  last_failed_at = some now;
}

-- `Math.min(lockoutMaxMs, base * 2 ** over)`.
unfoldable pub backoff : Settings → Scope → ℕ → ℕ
backoff settings scope failed_count =
    min (settings.lockout_max_ms scope)
      (settings.lockout_base_ms scope * 2 ^ (failed_count - settings.lockout_threshold scope))

-- The second half of `recordFailure`: the lock, once the count has reached the threshold.
lock_row : Settings → Table → LockoutKey → LockoutRow → ℕ → Table × LockoutFailureResult
lock_row settings table key row now =
    if leb (settings.lockout_threshold key.scope) row.failed_count
    then (let until = now + backoff settings key.scope row.failed_count in
        (
          set key (record row { locked_until = some until; last_locked_at = some now }) table,
          record { locked_now = true; failed_count = row.failed_count; locked_until = some until },
        ))
    else (
      table,
      record {
        locked_now = false;
        failed_count = row.failed_count;
        locked_until = row.locked_until;
      },
    )

unfoldable pub record_failure : Settings → Table → LockoutKey → ℕ → Table × LockoutFailureResult
unfolding lock_row
record_failure settings table key now =
    if settings.lockout_threshold key.scope == 0
    then (table, record { locked_now = false; failed_count = 0; locked_until = none })
    else (let row = failed_row (get key table) now in
        lock_row settings (set key row table) key row now)

-- `deleted` says whether the database carried the deletion out: a failure is logged and dropped.
unfoldable pub record_success : Table → LockoutKey → Bool → Table
record_success table key deleted = if deleted then delete key table else table

abbrev is_row : Option LockoutRow → Bool
is_row none = false
is_row (some row) = true

-- Whether a row was cleared stands beside the table.
unfoldable pub unlock : Table → LockoutKey → Table × Bool
unlock table key = (delete key table, is_row (get key table))

-- `until > now` for a lock that may be absent.
abbrev pub is_after : Option ℕ → ℕ → Bool
is_after none now = false
is_after (some until) now = ltb now until

abbrev pub failures_of : Option LockoutRow → ℕ
failures_of none = 0
failures_of (some row) = row.failed_count

abbrev pub last_failure_of : Option LockoutRow → Option ℕ
last_failure_of none = none
last_failure_of (some row) = row.last_failed_at

unfoldable pub to_status : Option LockoutRow → ℕ → LockoutStatus
to_status row now = record {
  locked = is_after (lock_of row) now;
  locked_until = if is_after (lock_of row) now then lock_of row else none;
  failed_count = failures_of row;
  last_failed_at = last_failure_of row;
}

unfoldable pub get_status : Table → LockoutKey → ℕ → LockoutStatus
get_status table key now = to_status (get key table) now

-- `findMany` with `usernameKey in usernameKeys`, as the map `byKey`.
rows_of : Table → Scope → List String → Map String LockoutRow
rows_of [] scope keys = []
rows_of ((key, row) ∷ table) scope keys =
    let rest = rows_of table scope keys in
    if key.scope == scope && contains key.username_key keys
    then set key.username_key row rest
    else rest

-- The loop of `getStatusMany` that fills `out`.
status_loop :
    Map String LockoutRow → List String → ℕ → Map String LockoutStatus → Map String LockoutStatus
status_loop by_key [] now out = out
status_loop by_key (key ∷ keys) now out =
    status_loop by_key keys now (set key (to_status (get key by_key) now) out)

pub get_status_many : Table → Scope → List String → ℕ → Map String LockoutStatus
unfolding rows_of status_loop
get_status_many table scope keys now = status_loop (rows_of table scope keys) keys now []

abbrev pub counts_as_locked : Scope → ℕ → LockoutKey × LockoutRow → Bool
counts_as_locked scope now (key, row) = key.scope == scope && is_after row.locked_until now

pub count_locked : Table → Scope → ℕ → ℕ
count_locked table scope now = length (keep (counts_as_locked scope now) table)

-- The condition of the `deleteMany` in `prune`; `t < now - horizon` is `t + horizon < now`.
is_stale : ℕ → ℕ → LockoutRow → Bool
is_stale horizon_ms now row = elim row.locked_until [
  | some until ↦ ltb (until + horizon_ms) now
  | none ↦ elim row.last_failed_at [ some failed ↦ ltb (failed + horizon_ms) now | none ↦ false ]
]

unfoldable pub horizon : Settings → ℕ
horizon settings = max (settings.lockout_max_ms admin) (settings.lockout_max_ms end_user)

-- The number of rows removed stands beside the table.
unfoldable pub prune : Settings → Table → ℕ → Table × ℕ
unfolding is_stale
prune settings table now =
    let left = retain (λ key row. not (is_stale (horizon settings) now row)) table in
    (left, length table - length left)
