-- ===== src/Identity/Upsert.antt =====
-- apps/api/src/identity/identity.repository.ts: what the synchronisation calls, with
-- normalizeSyncedEmail of apps/api/src/identity/utils/normalize-synced-email.util.ts. A call runs
-- whole, so that the unique index on usernames, which the upsert asks again, finds what the check
-- before it found. `to_lower` is `toLowerCase`.
pub mod Cases
pub mod Unique
pub mod Answers
pub mod Sweep
pub mod Outside
use nest_id_p.Base.{
  ℕ, zero, suc, ◌+◌, ◌-◌, ◌*◌, ◌^◌, ◌≤◌, ◌<◌, ◌≡◌, ◌≢◌, ◌↔◌, ◌⊎◌, inl, inr, refl, sym, ap, ◌∙◌, min,
  max, String, Bool, true, false, not, ◌&&◌, ◌||◌, Option, none, some, List, [], ◌∷◌, ◌++◌, map,
  arith, leb, ltb, nat_beq, if◌then◌else◌, length, take, keep, All, Bool-cases, Option-cases,
}
use nest_id_p.Base.Eq.{Eq, ◌==◌, nat_eq, string_eq, contains, beq_refl, beq-false}
use nest_id_p.Base.Maps.{Map, get, set, delete, retain}
use nest_id_p.Base.Text.{Text, codes, trim_start, trim_end, is_empty, includes}
use nest_id_p.Base.{find, update_where, any}
use nest_id_p.Base.Rows.{update_first}
use Prim.Native.String.{◌++◌ as append}
use nest_id_p.Sync.Errors.{
  Kind, group, role, Exception, Outcome, done, threw, says, other_error, username_collision_error,
  name_collision_error,
}
use nest_id_p.Sync.Directory.{ExternalUser, ExternalEntity}
use nest_id_p.AuthProtection.Settings.{end_user}
use nest_id_p.AuthProtection.Lockout.{record_success}
use nest_id_p.Identity.Data.{
  Identity, User, Entity, Member, Fresh, synced, manual, drop_entities, entity_has_external,
  entity_has_name, has_external, has_id, has_username, is_synced, set_members, entity_has_id,
  set_entities,
}

abbrev pub username_collision : String → String → Exception
username_collision external_id name =
    username_collision_error external_id name (says (append "Username already in use: " name))

-- The class of a collision is that of the kind.
abbrev pub name_collision : Kind → String → Exception
name_collision group name =
    name_collision_error group (says (append "Group name already in use: " name))
name_collision role name =
    name_collision_error role (says (append "Role name already in use: " name))

abbrev pub cross_connection : Kind → Exception
cross_connection group = other_error (says "Cannot assign a group from a different identity source")
cross_connection role = other_error (says "Cannot assign a role from a different identity source")

-- Whether the owner of the username, if any, is another identity.
abbrev pub is_taken_by_other : String → String → Option User → Bool
is_taken_by_other connection_id external_id none = false
is_taken_by_other connection_id external_id (some u) =
    not (has_external connection_id external_id u)

abbrev pub is_manual : Option User → Bool
is_manual none = false
is_manual (some u) = not (is_synced u.origin)

abbrev pub rotates : String → Option User → Bool
rotates password_hash none = false
rotates password_hash (some u) = not (u.password_hash == password_hash)

module _ (to_lower : String → String) where
  -- `none` is both an absent address and an invalid one, as the caller treats them.
  pub normalize_synced_email : Option String → Option String
  normalize_synced_email none = none
  normalize_synced_email (some raw) =
      let trimmed = trim_end (trim_start raw) in
      if is_empty trimmed
      then none
      else (let normalized = codes (to_lower trimmed) in
          if not (includes b'@' normalized) || ltb 256 (length normalized)
          then none
          else some (to_lower trimmed))

  -- The columns that an upsert writes.
  abbrev pub written : ExternalUser → User → User
  written user u = record u {
    username = user.username;
    email = normalize_synced_email user.email;
    display_name = user.display_name;
    password_hash = user.password_hash;
    password_hash_algorithm = user.password_hash_algorithm;
    active = user.active;
  }

  module _ (fresh : Fresh) where
    -- The row that an upsert creates.
    abbrev pub created : ℕ → String → ExternalUser → User
    created n connection_id user = record {
      id = fresh.id_of n;
      external_id = user.id;
      api_connection_id = connection_id;
      origin = synced;
      username = user.username;
      email = normalize_synced_email user.email;
      display_name = user.display_name;
      password_hash = user.password_hash;
      password_hash_algorithm = user.password_hash_algorithm;
      active = user.active;
      created_at = fresh.time_of n;
    }

    -- The `upsert` of the table.
    unfoldable pub upsert_row : Identity → String → ExternalUser → Option User → Identity × String
    upsert_row d connection_id user (some existing) = (
      record d { users = update_first (has_external connection_id user.id) (written user) d.users },
      existing.id,
    )
    upsert_row d connection_id user none = (
      record d {
        users = d.users ++ created d.next_id connection_id user ∷ [];
        next_id = d.next_id + 1;
      },
      fresh.id_of d.next_id,
    )

    unfoldable pub upsert_user : Identity → String → ExternalUser → Identity × Outcome String
    unfolding upsert_row
    upsert_user d connection_id user =
        let by_username = find (has_username user.username) d.users in
        let existing = find (has_external connection_id user.id) d.users in
        if is_taken_by_other connection_id user.id by_username || is_manual existing
        then (d, threw (username_collision user.id user.username))
        else (let (stored, id) = upsert_row d connection_id user existing in
            (
              if rotates user.password_hash by_username
                  then record stored {
                    lockouts =
                        record_success stored.lockouts
                          (record {
                            scope = end_user;
                            username_key = trim_end (trim_start user.username);
                          })
                          true;
                  }
                  else stored,
              done id,
            ))

-- A row of groups or roles: its name is unique in its source.
unfoldable pub upsert_named :
    Fresh → Identity → Kind → String → ExternalEntity → Option Entity → Identity × Outcome String
upsert_named fresh d kind connection_id e (some existing) =
    if any (λ r. entity_has_name connection_id e.name r && not (r.id == existing.id))
      (d.entities kind)
    then (d, threw (name_collision kind e.name))
    else (
      set_entities kind
          (update_first (entity_has_external connection_id e.id) (λ r. record r { name = e.name })
            (d.entities kind))
          d,
      done existing.id,
    )
upsert_named fresh d kind connection_id e none =
    if any (entity_has_name connection_id e.name) (d.entities kind)
    then (d, threw (name_collision kind e.name))
    else (let row : Entity = record {
      id = fresh.id_of d.next_id;
      external_id = e.id;
      api_connection_id = connection_id;
      origin = synced;
      name = e.name;
      created_at = fresh.time_of d.next_id;
    } in
        (
          record (set_entities kind (d.entities kind ++ row ∷ []) d) { next_id = d.next_id + 1 },
          done (fresh.id_of d.next_id),
        ))

unfoldable pub upsert_entity :
    Fresh → Identity → Kind → String → ExternalEntity → Identity × Outcome String
unfolding upsert_named
upsert_entity fresh d kind connection_id e =
    upsert_named fresh d kind connection_id e
      (find (entity_has_external connection_id e.id) (d.entities kind))

abbrev pub upsert_group : Fresh → Identity → String → ExternalEntity → Identity × Outcome String
upsert_group fresh d connection_id e = upsert_entity fresh d group connection_id e

abbrev pub upsert_role : Fresh → Identity → String → ExternalEntity → Identity × Outcome String
upsert_role fresh d connection_id e = upsert_entity fresh d role connection_id e

-- The rows that belong to another source than the user's, of those that are named.
abbrev pub is_foreign : List String → String → Entity → Bool
is_foreign ids connection_id e = contains e.id ids && not (e.api_connection_id == connection_id)

-- `assertMembershipsSameConnection`: whether it throws.
unfoldable pub crosses_connections : Identity → Kind → String → List String → Bool
crosses_connections d kind user_id [] = false
crosses_connections d kind user_id (id ∷ ids) = elim (find (has_id user_id) d.users) [
  | none ↦ false
  | some u ↦ any (is_foreign (id ∷ ids) u.api_connection_id) (d.entities kind)
]

abbrev pub members_of : String → List String → List Member
members_of user_id ids = map (λ id. record { user_id = user_id; entity_id = id }) ids

abbrev pub without_user : String → List Member → List Member
without_user user_id members = keep (λ m. not (m.user_id == user_id)) members

-- The primary key of the memberships, and their references.
unfoldable pub repeats : List String → Bool
repeats [] = false
repeats (id ∷ ids) = contains id ids || repeats ids

unfoldable pub refers : Identity → Kind → String → List String → Bool
refers d kind user_id [] = true
refers d kind user_id (id ∷ ids) =
    any (has_id user_id) d.users
    && (any (entity_has_id id) (d.entities kind) && refers d kind user_id ids)

abbrev pub constraint_failed : Exception
constraint_failed = other_error (says "constraint failed")

-- The transaction of a replacement, which a failed constraint rolls back.
unfoldable pub replace_user_entities :
    Identity → Kind → String → List String → Identity × Outcome {0} Unit
unfolding repeats refers
replace_user_entities d kind user_id ids =
    if crosses_connections d kind user_id ids
    then (d, threw (cross_connection kind))
    else if repeats ids || not (refers d kind user_id ids)
    then (d, threw constraint_failed)
    else (
      set_members kind (without_user user_id (d.members kind) ++ members_of user_id ids) d,
      done tt,
    )

abbrev pub replace_user_groups : Identity → String → List String → Identity × Outcome {0} Unit
replace_user_groups d user_id ids = replace_user_entities d group user_id ids

abbrev pub replace_user_roles : Identity → String → List String → Identity × Outcome {0} Unit
replace_user_roles d user_id ids = replace_user_entities d role user_id ids

-- The `where` of the deactivation.
abbrev pub to_deactivate : String → List String → User → Bool
to_deactivate connection_id seen u =
    u.api_connection_id == connection_id
    && (is_synced u.origin && (not (contains u.external_id seen) && u.active))

-- The users that a test names, without their memberships, and inactive.
abbrev pub deactivate_users : (User → Bool) → Identity → Identity
deactivate_users test d = record d {
  users = update_where test (λ u. record u { active = false }) d.users;
  members =
      λ kind. keep (λ m. not (any (λ u. test u && u.id == m.user_id) d.users)) (d.members kind);
}

unfoldable pub deactivate_users_not_in_external_ids :
    Identity → String → List String → Identity × Outcome ℕ
deactivate_users_not_in_external_ids d connection_id seen = (
  deactivate_users (to_deactivate connection_id seen) d,
  done (length (keep (to_deactivate connection_id seen) d.users)),
)

abbrev pub is_orphan : String → List String → Entity → Bool
is_orphan connection_id seen e =
    e.api_connection_id == connection_id
    && (is_synced e.origin && not (contains e.external_id seen))

unfoldable pub delete_orphans : Identity → Kind → String → List String → Identity × Outcome ℕ
delete_orphans d kind connection_id seen = (
  drop_entities kind (is_orphan connection_id seen) d,
  done (length (keep (is_orphan connection_id seen) (d.entities kind))),
)

abbrev pub delete_orphan_groups : Identity → String → List String → Identity × Outcome ℕ
delete_orphan_groups d connection_id seen = delete_orphans d group connection_id seen

abbrev pub delete_orphan_roles : Identity → String → List String → Identity × Outcome ℕ
delete_orphan_roles d connection_id seen = delete_orphans d role connection_id seen
