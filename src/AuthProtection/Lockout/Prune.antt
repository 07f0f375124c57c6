-- ===== src/AuthProtection/Lockout/Prune.antt =====
-- The sweep of stale lockout rows.
use nest_id_p.Base.{
  ℕ, ◌+◌, ◌≤◌, ◌≡◌, refl, inl, inr, max, not, Option, none, some, arith, Option-cases,
}
use nest_id_p.Base.Eq.{nat_eq}
use nest_id_p.Base.Maps.{get, Distinct, get-retain, filter_value, Distinct-retain}
use nest_id_p.AuthProtection.Settings.{admin, end_user, Settings}
use nest_id_p.AuthProtection.Lockout.{
  LockoutKey, LockoutRow, Table, lockout_key_eq, check, check_until, lock_of, is_stale, horizon,
  prune,
}

get-prune :
    (settings : Settings) (table : Table) (key : LockoutKey) (now : ℕ)
    → Distinct table
    → get key (prune settings table now).0
      ≡ filter_value (λ row. not (is_stale (horizon settings) now row)) (get key table)
unfolding prune
get-prune settings table key now d =
    get-retain (λ k row. not (is_stale (horizon settings) now row)) key table d

pub prune-Distinct :
    (settings : Settings) (table : Table) (now : ℕ)
    → Distinct table
    → Distinct (prune settings table now).0
unfolding prune
prune-Distinct settings table now d = Distinct-retain _ table d

check_until-filter :
    (o : Option LockoutRow) (h now later : ℕ)
    → now ≤ later
    → check_until (lock_of (filter_value (λ row. not (is_stale h now row)) o)) later
      ≡ check_until (lock_of o) later
unfolding check_until is_stale
check_until-filter none h now later t = refl
check_until-filter (some row) h now later t = elim (Option-cases row.locked_until) [
  | inl e ↦ rw (e, is_stale, check_until) (ground arith)
  | inr (until, e) ↦ rw (e, is_stale, check_until) (ground arith)
]

-- The sweep lifts no lock: at the time of the sweep and at every later time the check of every
-- account answers as it would have without it.
pub check-prune :
    (settings : Settings) (table : Table) (key : LockoutKey) (now later : ℕ)
    → Distinct table
    → now ≤ later
    → check settings (prune settings table now).0 key later ≡ check settings table key later
unfolding check
check-prune settings table key now later d t =
    rw (get-prune settings table key now d)
      (ground (arith, check_until-filter (get key table) (horizon settings) now later t))

-- The escalation is remembered: a row that was locked stays for at least the longest lock time of
-- any scope after its lock ended, so that its next failure counts on from there.
pub get-prune_recent :
    (settings : Settings) (table : Table) (key : LockoutKey) (row : LockoutRow) (until now : ℕ)
    → Distinct table
    → get key table ≡ some row
    → row.locked_until ≡ some until
    → now ≤ until + max (settings.lockout_max_ms admin) (settings.lockout_max_ms end_user)
    → get key (prune settings table now).0 ≡ some row
unfolding is_stale horizon
get-prune_recent settings table key row until now d e u t =
    rw (get-prune settings table key now d, e) (ground arith)
