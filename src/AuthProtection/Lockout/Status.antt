-- ===== src/AuthProtection/Lockout/Status.antt =====
-- The lockout status that the administration shows, against the check that guards a login.
use nest_id_p.Base.{
  ℕ, ◌<◌, ◌≡◌, ◌≢◌, refl, inl, inr, String, true, false, none, some, List, [], ◌∷◌, arith,
  if◌then◌else◌, Option-cases,
}
use nest_id_p.Base.Eq.{nat_eq, string_eq, contains, beq-false}
use nest_id_p.Base.Maps.{Map, get, set, get-set}
use nest_id_p.AuthProtection.Settings.{Scope, Settings, scope_eq}
use nest_id_p.AuthProtection.Lockout.{
  LockoutKey, LockoutRow, LockoutStatus, Table, lockout_key_eq, check, check_until, lock_of,
  to_status, get_status, rows_of, status_loop, get_status_many,
}

-- Where the lockout is on, the status shows an account as locked exactly when its login is refused.
pub get_status-check :
    (settings : Settings) (table : Table) (key : LockoutKey) (now : ℕ)
    → settings.lockout_threshold key.scope ≢ 0
    → (get_status table key now).locked ≡ (check settings table key now).locked
unfolding get_status to_status check check_until
get_status-check settings table key now enabled =
    rw (beq-false (settings.lockout_threshold key.scope) 0 enabled)
      (elim (Option-cases (lock_of (get key table))) [
        | inl e ↦ rw (e, check_until) refl
        | inr (until, e) ↦ rw (e, check_until) (ground arith)
      ])

-- Where the lockout is off, the status and the check differ for every account with a lock that has not run out: the check
-- lets the login through, and the status still shows the account as locked.
pub get_status-disabled :
    (settings : Settings) (table : Table) (key : LockoutKey) (until now : ℕ)
    → settings.lockout_threshold key.scope ≡ 0
    → lock_of (get key table) ≡ some until
    → now < until
    → ((check settings table key now).locked ≡ false) × ((get_status table key now).locked ≡ true)
unfolding get_status to_status check check_until
get_status-disabled settings table key until now off e open_until =
    (rw off refl, rw e (ground arith))

get-rows_of :
    (table : Table) (scope : Scope) (keys : List String) (name : String)
    → get name (rows_of table scope keys) ≡ (
        if contains name keys
        then get (record { scope = scope; username_key = name }) table
        else none)
unfolding rows_of get
get-rows_of [] scope keys name = ground arith
get-rows_of ((key, row) ∷ table) scope keys name = ground (
  arith,
  get-rows_of table scope keys name,
  get-set key.username_key name row (rows_of table scope keys),
  string_eq.beq_iff key.username_key name,
)

get-status_loop :
    (by_key : Map String LockoutRow) (keys : List String) (now : ℕ) (out : Map String LockoutStatus)
    (name : String)
    → get name (status_loop by_key keys now out)
      ≡ (if contains name keys then some (to_status (get name by_key) now) else get name out)
unfolding status_loop contains
get-status_loop by_key [] now out name = refl
get-status_loop by_key (key ∷ keys) now out name = ground (
  arith,
  get-status_loop by_key keys now (set key (to_status (get key by_key) now) out) name,
  get-set key name (to_status (get key by_key) now) out,
  string_eq.beq_iff key name,
)

-- The batch lookup gives, for every name in the list and for no other, the status that the single
-- lookup gives.
pub get-get_status_many :
    (table : Table) (scope : Scope) (keys : List String) (now : ℕ) (name : String)
    → get name (get_status_many table scope keys now) ≡ (
        if contains name keys
        then some (get_status table (record { scope = scope; username_key = name }) now)
        else none)
unfolding get_status_many get_status get
get-get_status_many table scope keys now name = ground (
  arith,
  get-status_loop (rows_of table scope keys) keys now [] name,
  get-rows_of table scope keys name,
)
