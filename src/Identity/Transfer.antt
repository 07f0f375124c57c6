-- ===== src/Identity/Transfer.antt =====
-- apps/api/src/identity/identity.repository.ts: the export and the import of everything, the
-- deletion of everything, and the removal of what a source left. The reports of progress are a list.
pub mod RoundTrip
pub mod Import
use nest_id_p.Identity.Manual.{create_members, entity_fits, user_fits, record_missing, then_write}
use Prim.Native.String.{◌++◌ as append}
use nest_id_p.Base.Lists.{find, any, drop}
use nest_id_p.Base.Rows.{update_first, count}
use nest_id_p.Sync.Errors.{Kind, group, role, Exception, Outcome, done, threw, other_error, says}
use nest_id_p.Sync.Counters.{put}
use nest_id_p.Identity.Data.{
  Identity, User, Entity, Member, Fresh, Origin, manual, synced, is_synced, has_id, entity_has_id,
  set_members, set_entities, drop_users, drop_entities,
}
use nest_id_p.Identity.Upsert.{members_of, without_user, constraint_failed, deactivate_users}
use nest_id_p.Base.{
  ℕ, zero, suc, ◌+◌, ◌-◌, ◌*◌, ◌^◌, ◌≤◌, ◌<◌, ◌≡◌, ◌≢◌, ◌↔◌, ◌⊎◌, inl, inr, refl, sym, ap, ◌∙◌, min,
  max, String, Bool, true, false, not, ◌&&◌, ◌||◌, Option, none, some, List, [], ◌∷◌, ◌++◌, map,
  arith, leb, ltb, nat_beq, if◌then◌else◌, length, take, keep, All, Bool-cases, Option-cases, ◌%◌,
}
use nest_id_p.Base.Eq.{Eq, ◌==◌, nat_eq, string_eq, contains, beq_refl, beq-false}
use nest_id_p.Base.Maps.{Map, get, set, delete, retain}
use nest_id_p.Base.Text.{Text, codes}

pub record Snapshot : Type 0 where
  pub users : List User
  pub entities : Kind → List Entity
  pub members : Kind → List Member

pub data ImportMode : Type 0 where
  insert_missing upsert : ImportMode

pub record Counts : Type 0 where
  pub inserted : ℕ
  pub updated : ℕ

pub record ImportCounts : Type 0 where
  pub users : Counts
  pub entities : Kind → Counts

abbrev pub export_all : Identity → Snapshot
export_all d = record { users = d.users; entities = d.entities; members = d.members }

abbrev pub wipe_all : Identity → Identity
wipe_all d = record d { users = []; entities = λ kind. []; members = λ kind. [] }

-- `chunk`, whose loop ends after as many turns as there are items.
unfoldable pub chunks : {A : Type 0} → ℕ → ℕ → List A → List (List A)
chunks zero size xs = []
chunks (suc n) size [] = []
chunks (suc n) size (x ∷ xs) = take size (x ∷ xs) ∷ chunks n size (drop size (x ∷ xs))

abbrev pub chunk : {A : Type 0} → List A → ℕ → List (List A)
chunk xs size = chunks (length xs) size xs

-- The rows that are through, of all, and what was reported of them.
pub record Progress : Type 0 where
  pub through : ℕ
  pub reports : List (ℕ × ℕ)

unfoldable pub tick : ℕ → Progress → Progress
tick total p =
    let through = p.through + 1 in
    record {
      through = through;
      reports =
          if nat_beq (through % 100) 0 || nat_beq through total
          then p.reports ++ (through, total) ∷ []
          else p.reports;
    }

abbrev pub one_inserted : Counts → Counts
one_inserted c = record c { inserted = c.inserted + 1 }

abbrev pub one_updated : Counts → Counts
one_updated c = record c { updated = c.updated + 1 }

-- The loop over one table: `existing` holds the ids from before it.
pub record Loop (R : Type 0) : Type 0 where
  pub table : List R
  pub counts : Counts
  pub progress : Progress

module _ {R : Type 0} (row_id : R → String) (row_fits : List R → R → Bool) (overwrite : R → R → R)
    (mode : ImportMode) (total : ℕ) (existing : List String) where
  overwritten : R → Loop R → Loop R × Outcome {0} Unit
  overwritten r s = elim (find (λ o. row_id o == row_id r) s.table) [
    | none ↦ (s, threw record_missing)
    | some old ↦
        if row_fits (keep (λ o. not (row_id o == row_id r)) s.table) (overwrite r old)
        then (
          record s {
            table = update_first (λ o. row_id o == row_id r) (overwrite r) s.table;
            counts = one_updated s.counts;
            progress = tick total s.progress;
          },
          done tt,
        )
        else (s, threw constraint_failed)
  ]

  unfoldable pub import_row : R → Loop R → Loop R × Outcome {0} Unit
  unfolding overwritten
  import_row r s =
      if not (contains (row_id r) existing)
      then (if row_fits s.table r
          then (
            record s {
              table = s.table ++ r ∷ [];
              counts = one_inserted s.counts;
              progress = tick total s.progress;
            },
            done tt,
          )
          else (s, threw constraint_failed))
      else (elim mode [
        | insert_missing ↦ (record s { progress = tick total s.progress }, done tt)
        | upsert ↦ overwritten r s
      ])

  unfoldable pub import_rows : List R → Loop R → Loop R × Outcome {0} Unit
  import_rows [] s = (s, done tt)
  import_rows (r ∷ rs) s =
      let (next, result) = import_row r s in
      elim result [ threw x ↦ (next, threw x) | done u ↦ import_rows rs next ]

abbrev pub overwrite_entity : Entity → Entity → Entity
overwrite_entity e old = record old { name = e.name }

abbrev pub overwrite_user : User → User → User
overwrite_user u old = record old {
  username = u.username;
  email = u.email;
  display_name = u.display_name;
  password_hash = u.password_hash;
  password_hash_algorithm = u.password_hash_algorithm;
  active = u.active;
}

abbrev pub member_key : Member → String
member_key m = append m.user_id (append "|" m.entity_id)

-- The parts of the memberships that are not there yet, each a `createMany`.
unfoldable pub import_parts : Kind → List (List Member) → Identity → Identity × Outcome {0} Unit
import_parts kind [] d = (d, done tt)
import_parts kind (part ∷ parts) d =
    let (next, result) = create_members kind part d in
    elim result [ threw x ↦ (next, threw x) | done u ↦ import_parts kind parts next ]

unfoldable pub import_members : Kind → List Member → Identity → Identity × Outcome {0} Unit
import_members kind ms d =
    let existing = map member_key (d.members kind) in
    import_parts kind (chunk (keep (λ m. not (contains (member_key m) existing)) ms) 500) d

abbrev pub no_counts : Counts
no_counts = record { inserted = 0; updated = 0 }

module _ (known : String → Bool) (mode : ImportMode) (snapshot : Snapshot) where
  abbrev pub total_rows : ℕ
  total_rows =
      length (snapshot.entities group) + length (snapshot.entities role) + length snapshot.users

  unfoldable pub import_entities :
      Kind → Progress → Identity → (Identity × Progress) × Outcome Counts
  import_entities kind p d =
      let (s, result) =
        import_rows (λ e. e.id) (entity_fits known) overwrite_entity mode total_rows
          (map (λ e. e.id) (d.entities kind)) (snapshot.entities kind)
          (record { table = d.entities kind; counts = no_counts; progress = p }) in
      let stored = set_entities kind s.table d in
      elim result [
        | threw x ↦ ((stored, s.progress), threw x)
        | done u ↦ ((stored, s.progress), done s.counts)
      ]

  unfoldable pub import_users : Progress → Identity → (Identity × Progress) × Outcome Counts
  import_users p d =
      let (s, result) =
        import_rows (λ u. u.id) (user_fits known) overwrite_user mode total_rows
          (map (λ u. u.id) d.users) snapshot.users
          (record { table = d.users; counts = no_counts; progress = p }) in
      let stored = record d { users = s.table } in
      elim result [
        | threw x ↦ ((stored, s.progress), threw x)
        | done u ↦ ((stored, s.progress), done s.counts)
      ]

  -- Groups, roles, users, then the memberships of both kinds; what was written stays where a later
  -- row throws.
  pub import_snapshot : Identity → (Identity × Progress) × Outcome ImportCounts
  import_snapshot d =
      let (grouped, groups) = import_entities group (record { through = 0; reports = [] }) d in
      elim groups [
        | threw x ↦ (grouped, threw x)
        | done group_counts ↦
            let (with_roles, roles) = import_entities role grouped.1 grouped.0 in
            elim roles [
              | threw x ↦ (with_roles, threw x)
              | done role_counts ↦
                  let (with_users, users) = import_users with_roles.1 with_roles.0 in
                  elim users [
                    | threw x ↦ (with_users, threw x)
                    | done user_counts ↦
                        let (joined, members) =
                          then_write (import_members group (snapshot.members group) with_users.0)
                            (import_members role (snapshot.members role)) in
                        elim members [
                          | threw x ↦ ((joined, with_users.1), threw x)
                          | done u ↦ (
                            (joined, with_users.1),
                            done (record {
                              users = user_counts;
                              entities =
                                  put group group_counts (put role role_counts (λ kind. no_counts));
                            }),
                          )
                        ]
                  ]
            ]
      ]

abbrev pub is_synced_from : String → User → Bool
is_synced_from c u = u.api_connection_id == c && is_synced u.origin

abbrev pub entity_is_synced_from : String → Entity → Bool
entity_is_synced_from c e = e.api_connection_id == c && is_synced e.origin

pub synced_user_ids_for_connection : Identity → String → List String
synced_user_ids_for_connection d c = map (λ (u : User). u.id) (keep (is_synced_from c) d.users)

pub data RemovalMode : Type 0 where
  deactivate delete_rows : RemovalMode

pub record Removed : Type 0 where
  pub users : ℕ
  pub groups : ℕ
  pub roles : ℕ

-- The parts of the users, each with its memberships.
deactivate_parts : List (List User) → Identity → Identity
deactivate_parts [] d = d
deactivate_parts (part ∷ parts) d =
    deactivate_parts parts (deactivate_users (λ u. any (λ p. p.id == u.id) part) d)

unfoldable pub remove_connection_identities : Identity → String → RemovalMode → Identity × Removed
unfolding deactivate_parts
remove_connection_identities d c deactivate =
    let users = keep (is_synced_from c) d.users in
    (deactivate_parts (chunk users 200) d, record { users = length users; groups = 0; roles = 0 })
remove_connection_identities d c delete_rows = (
  drop_entities role (entity_is_synced_from c)
      (drop_entities group (entity_is_synced_from c) (drop_users (is_synced_from c) d)),
  record {
    users = count (is_synced_from c) d.users;
    groups = count (entity_is_synced_from c) (d.entities group);
    roles = count (entity_is_synced_from c) (d.entities role);
  },
)

unfoldable pub connection_has_identity_rows : Identity → String → Bool
connection_has_identity_rows d c = ltb 0 (
    count (λ (u : User). u.api_connection_id == c) d.users
    + (count (λ (e : Entity). e.api_connection_id == c) (d.entities group)
        + count (λ (e : Entity). e.api_connection_id == c) (d.entities role)))
