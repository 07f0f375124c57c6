-- ===== src/AdminUsers.antt =====
-- apps/api/src/admin-users/services/admin-users.service.ts: the accounts of administrators, with the
-- lockouts of apps/api/src/auth-protection. The hash of a password, whether a password is strong
-- enough and the trimming of texts are parameters.
pub mod Last
use nest_id_p.Base.Lists.{find, any, sort_by}
use nest_id_p.Base.Rows.{update_first}
use nest_id_p.Base.Text.{is_empty}
use nest_id_p.Sync.Errors.{
  Exception, Outcome, done, threw, says, not_found_error, bad_request_error, conflict_error,
}
use nest_id_p.AuthProtection.Settings.{Scope, admin}
use nest_id_p.AuthProtection.Lockout.{
  Table, LockoutKey, LockoutStatus, get_status_many, unlock, record_success,
}
use nest_id_p.Identity.Data.{Fresh}
use nest_id_p.Base.{
  ℕ, zero, suc, ◌+◌, ◌-◌, ◌*◌, ◌^◌, ◌≤◌, ◌<◌, ◌≡◌, ◌≢◌, ◌↔◌, ◌⊎◌, inl, inr, refl, sym, ap, ◌∙◌, min,
  max, String, Bool, true, false, not, ◌&&◌, ◌||◌, Option, none, some, List, [], ◌∷◌, ◌++◌, map,
  arith, leb, ltb, nat_beq, if◌then◌else◌, length, take, keep, All, Bool-cases, Option-cases,
}
use nest_id_p.Base.Eq.{Eq, ◌==◌, nat_eq, string_eq, contains, beq_refl, beq-false}
use nest_id_p.Base.Maps.{Map, get, set, delete, retain}
use nest_id_p.Base.Text.{Text, codes}

pub record AdminUser : Type 0 where
  pub id : String
  pub username : String
  pub password_hash : String
  pub created_at : ℕ

pub record Actor : Type 0 where
  pub id : String
  pub username : String

pub data AdminEvent : Type 0 where
  admin_user_created admin_user_updated admin_user_deleted : Actor → String → String → AdminEvent
  account_unlocked : String → Actor → String → AdminEvent

pub record Admins : Type 0 where
  pub rows : List AdminUser
  pub lockouts : Table
  pub audit : List AdminEvent
  pub next_id : ℕ

abbrev pub admin_has_id : String → AdminUser → Bool
admin_has_id id a = a.id == id

abbrev pub admin_not_found : Exception
admin_not_found = not_found_error (says "Admin user not found")

abbrev pub weak_password : Exception
weak_password = bad_request_error (says "Password does not meet production strength requirements")

abbrev pub admin_key : String → LockoutKey
admin_key username = record { scope = admin; username_key = username }

abbrev pub or_unlocked : Option LockoutStatus → LockoutStatus
or_unlocked (some status) = status
or_unlocked none = record {
  locked = false;
  locked_until = none;
  failed_count = 0;
  last_failed_at = none;
}

module _ (trim : String → String) where
  -- The administrators in the order of their names, each with its status.
  pub list : (String → String → Bool) → Admins → ℕ → List (AdminUser × LockoutStatus)
  list before d now =
      let rows = sort_by (λ a b. before a.username b.username) d.rows in
      let statuses =
        get_status_many d.lockouts admin (map (λ (a : AdminUser). trim a.username) rows) now in
      map (λ (a : AdminUser). (a, or_unlocked (get (trim a.username) statuses))) rows

  unfoldable pub unlock_account : String → Actor → String → Admins → Admins × Outcome String
  unlock_account id actor client_ip d = elim (find (admin_has_id id) d.rows) [
    | none ↦ (d, threw admin_not_found)
    | some a ↦ (
      record d {
        lockouts = (unlock d.lockouts (admin_key (trim a.username))).0;
        audit = d.audit ++ account_unlocked (trim a.username) actor client_ip ∷ [];
      },
      done id,
    )
  ]

  module _ (strong : String → Bool) (hash : String → String) (fresh : Fresh) where
    unfoldable pub create_admin : String → String → Actor → Admins → Admins × Outcome AdminUser
    create_admin name password actor d =
        if not (strong password)
        then (d, threw weak_password)
        else if is_empty (trim name)
        then (d, threw (bad_request_error (says "username is required")))
        else if any (λ a. a.username == trim name) d.rows
        then (d, threw (conflict_error (says "Admin username already exists")))
        else (let row : AdminUser = record {
          id = fresh.id_of d.next_id;
          username = trim name;
          password_hash = hash password;
          created_at = fresh.time_of d.next_id;
        } in
            (
              record d {
                rows = d.rows ++ row ∷ [];
                audit = d.audit ++ admin_user_created actor row.id row.username ∷ [];
                next_id = d.next_id + 1;
              },
              done row,
            ))

    -- A new password also clears the lockout of the account.
    unfoldable pub update_password : String → String → Actor → Admins → Admins × Outcome AdminUser
    update_password id password actor d =
        if not (strong password)
        then (d, threw weak_password)
        else (elim (find (admin_has_id id) d.rows) [
          | none ↦ (d, threw admin_not_found)
          | some a ↦ (
            record d {
              rows =
                  update_first (admin_has_id id) (λ b. record b { password_hash = hash password })
                    d.rows;
              lockouts = record_success d.lockouts (admin_key (trim a.username)) true;
              audit = d.audit ++ admin_user_updated actor id a.username ∷ [];
            },
            done (record a { password_hash = hash password }),
          )
        ])

-- The transaction counts after the deletion, and is rolled back where nobody is left.
unfoldable pub delete_admin : String → Actor → Admins → Admins × Outcome String
delete_admin id actor d =
    if actor.id == id
    then (d, threw (conflict_error (says "Cannot delete your own admin account while logged in")))
    else (elim (find (admin_has_id id) d.rows) [
      | none ↦ (d, threw admin_not_found)
      | some a ↦
          let remaining = keep (λ b. not (admin_has_id id b)) d.rows in
          if ltb (length remaining) 1
          then (d, threw (conflict_error (says "Cannot delete the last admin account")))
          else (
            record d {
              rows = remaining;
              audit = d.audit ++ admin_user_deleted actor id a.username ∷ [];
            },
            done id,
          )
    ])

-- The requests that reach the service.
pub data AdminRequest : Type 0 where
  unlock_request : String → Actor → String → AdminRequest
  create_request password_request : String → String → Actor → AdminRequest
  delete_request : String → Actor → AdminRequest

module _ (trim : String → String) (strong : String → Bool) (hash : String → String)
    (fresh : Fresh) where
  abbrev pub serve : AdminRequest → Admins → Admins
  serve (unlock_request id actor ip) d = (unlock_account trim id actor ip d).0
  serve (create_request name password actor) d =
      (create_admin trim strong hash fresh name password actor d).0
  serve (password_request id password actor) d =
      (update_password trim strong hash fresh id password actor d).0
  serve (delete_request id actor) d = (delete_admin id actor d).0

  abbrev pub serve_all : List AdminRequest → Admins → Admins
  serve_all [] d = d
  serve_all (q ∷ qs) d = serve_all qs (serve q d)
