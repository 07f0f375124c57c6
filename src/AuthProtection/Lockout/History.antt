-- ===== src/AuthProtection/Lockout/History.antt =====
-- The lockout table over a history of failures and resets of many accounts.
use native.Mathlib.Nat.{mul-le-mul_left, pow-le-pow_right}
use nest_id_p.Base.{
  ℕ, ◌+◌, ◌≡◌, ◌≢◌, inl, inr, true, Option, none, some, List, [], ◌∷◌, arith, leb, if◌then◌else◌,
  Bool-cases, ◌∙◌, ◌≤◌, refl, ◌&&◌, ◌-◌, ltb,
}
use nest_id_p.Base.Eq.{◌==◌, nat_eq, beq-false, beq_refl}
use nest_id_p.Base.Maps.{get, set, get-set, get-delete}
use nest_id_p.AuthProtection.Settings.{Scope, Settings}
use nest_id_p.AuthProtection.Lockout.{
  LockoutKey, LockoutRow, Table, lockout_key_eq, failed_row, backoff, lock_row, record_failure,
  record_success, unlock, check, check_until, false, ltb,
}

-- A failed login, a successful one, and an operator's unlock, each with its account.
pub data Event : Type 0 where
  failed : LockoutKey → ℕ → Event
  succeeded : LockoutKey → Event
  unlocked : LockoutKey → Event

pub step : Settings → Table → Event → Table
step settings table (failed key now) = (record_failure settings table key now).0
step settings table (succeeded key) = record_success table key true
step settings table (unlocked key) = (unlock table key).0

pub run : Settings → Table → List Event → Table
unfolding step
run settings table [] = table
run settings table (e ∷ es) = run settings (step settings table e) es

-- How many failures an account has since its last reset, and the time of the last one.
pub record Tally : Type 0 where
  pub failures : ℕ
  pub last : ℕ

abbrev tally_step : LockoutKey → Tally → Event → Tally
tally_step key t (failed k now) =
    if k == key then record { failures = t.failures + 1; last = now } else t
tally_step key t (succeeded k) = if k == key then record { failures = 0; last = 0 } else t
tally_step key t (unlocked k) = if k == key then record { failures = 0; last = 0 } else t

unfoldable pub tally : LockoutKey → Tally → List Event → Tally
tally key t [] = t
tally key t (e ∷ es) = tally key (tally_step key t e) es

-- The row that an account with this tally has: its lock counts from the last failure.
abbrev expected_row : Settings → Scope → Tally → Option LockoutRow
expected_row settings scope t =
    if t.failures == 0
    then none
    else (let locks = leb (settings.lockout_threshold scope) t.failures in
        some (record {
          failed_count = t.failures;
          locked_until = if locks then some (t.last + backoff settings scope t.failures) else none;
          last_failed_at = some t.last;
          last_locked_at = if locks then some t.last else none;
        }))

-- The row that a failure leaves, locked if its count has reached the threshold.
abbrev locked_row : Settings → Scope → LockoutRow → ℕ → LockoutRow
locked_row settings scope row now =
    if leb (settings.lockout_threshold scope) row.failed_count
    then record row {
      locked_until = some (now + backoff settings scope row.failed_count);
      last_locked_at = some now;
    }
    else row

get-lock_row :
    (settings : Settings) (table : Table) (k j : LockoutKey) (row : LockoutRow) (now : ℕ)
    → get j (lock_row settings (set k row table) k row now).0
      ≡ (if k == j then some (locked_row settings k.scope row now) else get j table)
unfolding lock_row
get-lock_row settings table k j row now =
    let relocked : LockoutRow = record row {
      locked_until = some (now + backoff settings k.scope row.failed_count);
      last_locked_at = some now;
    } in
    elim (Bool-cases (leb (settings.lockout_threshold k.scope) row.failed_count)) [
      | inl h ↦
          rw (h, lock_row)
            (ground (arith, get-set k j relocked (set k row table), get-set k j row table))
      | inr h ↦ rw (h, lock_row) (get-set k j row table)
    ]

-- What one failure does to the row of every account.
pub get-record_failure :
    (settings : Settings) (table : Table) (k j : LockoutKey) (now : ℕ)
    → settings.lockout_threshold k.scope ≢ 0
    → get j (record_failure settings table k now).0 ≡ (
        if k == j
        then some (locked_row settings k.scope (failed_row (get k table) now) now)
        else get j table)
unfolding record_failure
get-record_failure settings table k j now enabled =
    rw (beq-false (settings.lockout_threshold k.scope) 0 enabled, record_failure)
      (get-lock_row settings table k j (failed_row (get k table) now) now)

failed_row-expected :
    (settings : Settings) (scope : Scope) (o : Option LockoutRow) (t : Tally) (now : ℕ)
    → settings.lockout_threshold scope ≢ 0
    → o ≡ expected_row settings scope t
    → some (locked_row settings scope (failed_row o now) now)
      ≡ expected_row settings scope (record { failures = t.failures + 1; last = now })
unfolding failed_row
failed_row-expected settings scope none t now enabled e = ground arith
failed_row-expected settings scope (some row) t now enabled e = ground arith

get-step_failed :
    (settings : Settings) (key k : LockoutKey) (table : Table) (t : Tally) (now : ℕ)
    → settings.lockout_threshold key.scope ≢ 0
    → get key table ≡ expected_row settings key.scope t
    → get key (record_failure settings table k now).0
      ≡ expected_row settings key.scope (tally_step key t (failed k now))
get-step_failed settings key k table t now enabled e = elim (Bool-cases (k == key)) [
  | inl same ↦
      let k-key : k ≡ key = (lockout_key_eq.beq_iff k key).0 same in
      rw (same, k-key, get-record_failure settings table key key now enabled, beq_refl key)
        (failed_row-expected settings key.scope (get key table) t now enabled e)
  | inr other ↦ elim (Bool-cases (settings.lockout_threshold k.scope == 0)) [
    | inl off ↦ rw other (unfold record_failure in rw (off, record_failure) e)
    | inr on ↦ rw (other, get-record_failure settings table k key now (λ z. ground arith), other) e
  ]
]

get-step :
    (settings : Settings) (key : LockoutKey) (table : Table) (t : Tally) (event : Event)
    → settings.lockout_threshold key.scope ≢ 0
    → get key table ≡ expected_row settings key.scope t
    → get key (step settings table event) ≡ expected_row settings key.scope (tally_step key t event)
unfolding step record_success unlock
get-step settings key table t (failed k now) enabled e =
    get-step_failed settings key k table t now enabled e
get-step settings key table t (succeeded k) enabled e = get-delete k key table ∙ ground arith
get-step settings key table t (unlocked k) enabled e = get-delete k key table ∙ ground arith

get-run :
    (settings : Settings) (key : LockoutKey) (table : Table) (t : Tally) (es : List Event)
    → settings.lockout_threshold key.scope ≢ 0
    → get key table ≡ expected_row settings key.scope t
    → get key (run settings table es) ≡ expected_row settings key.scope (tally key t es)
unfolding run tally
get-run settings key table t [] enabled e = e
get-run settings key table t (event ∷ es) enabled e =
    get-run settings key (step settings table event) (tally_step key t event) es enabled
      (get-step settings key table t event enabled e)

abbrev pub no_failures : Tally
no_failures = record { failures = 0; last = 0 }

-- After any history of failures, successes and unlocks of any accounts, an account whose scope
-- has a threshold has no row if nothing failed since its last reset, and otherwise the row that
-- counts those failures, whose lock, present exactly from the threshold on, runs from the last
-- failure for the backoff of that count.
pub get-run-expected :
    (settings : Settings) (key : LockoutKey) (es : List Event)
    → settings.lockout_threshold key.scope ≢ 0
    → get key (run settings [] es) ≡ expected_row settings key.scope (tally key no_failures es)
unfolding get
get-run-expected settings key es enabled = get-run settings key [] no_failures es enabled refl

check-expected :
    (settings : Settings) (key : LockoutKey) (table : Table) (t : Tally) (now : ℕ)
    → settings.lockout_threshold key.scope ≢ 0
    → get key table ≡ expected_row settings key.scope t
    → (check settings table key now).locked ≡ (
        leb (settings.lockout_threshold key.scope) t.failures
        && ltb now (t.last + backoff settings key.scope t.failures))
unfolding check check_until
check-expected settings key table t now enabled e =
    rw (beq-false (settings.lockout_threshold key.scope) 0 enabled, e) (ground arith)

-- After any history of failures, successes and unlocks of any accounts, an account whose scope has
-- a threshold is locked exactly when its failures since its last reset have reached the threshold
-- and the backoff of their number, counted from the last of them, is not over.
pub check-run :
    (settings : Settings) (key : LockoutKey) (es : List Event) (now : ℕ)
    → settings.lockout_threshold key.scope ≢ 0
    → (check settings (run settings [] es) key now).locked ≡ (
        leb (settings.lockout_threshold key.scope) (tally key no_failures es).failures
        && ltb now (
            (tally key no_failures es).last
            + backoff settings key.scope (tally key no_failures es).failures))
check-run settings key es now enabled =
    check-expected settings key _ (tally key no_failures es) now enabled
      (get-run-expected settings key es enabled)

backoff-le_max :
    (settings : Settings) (scope : Scope) (n : ℕ)
    → backoff settings scope n ≤ settings.lockout_max_ms scope
unfolding backoff
backoff-le_max settings scope n = omega arith

-- No lock is permanent: whatever the history, a login is not refused once the maximal lock time
-- of the scope has passed since the account's last failure.
pub check-run_expires :
    (settings : Settings) (key : LockoutKey) (es : List Event) (now : ℕ)
    → (tally key no_failures es).last + settings.lockout_max_ms key.scope ≤ now
    → (check settings (run settings [] es) key now).locked ≡ false
unfolding check
check-run_expires settings key es now late =
    elim (Bool-cases (settings.lockout_threshold key.scope == 0)) [
      | inl off ↦ rw (off, check) refl
      | inr on ↦
          check-run settings key es now (λ z. ground arith)
          ∙ ground (arith, backoff-le_max settings key.scope (tally key no_failures es).failures)
    ]

-- The backoff never falls as failures accumulate.
pub backoff_mono :
    (settings : Settings) (scope : Scope) (m n : ℕ)
    → m ≤ n
    → backoff settings scope m ≤ backoff settings scope n
unfolding backoff
backoff_mono settings scope m n h =
    let shift : m - settings.lockout_threshold scope ≤ n - settings.lockout_threshold scope =
      omega arith in
    let grown =
      mul-le-mul_left (settings.lockout_base_ms scope)
        (pow-le-pow_right {n = 2} (omega arith) shift) in
    omega arith
