-- ===== src/Identity/Manual.antt =====
-- apps/api/src/identity/identity.repository.ts: the rows that an administrator makes by hand, with
-- manualExternalId of apps/api/src/identity/utils/local-directory.util.ts. A transaction that meets
-- a constraint is rolled back. `known` is what the reference to a source finds.
-- What a row of users may not share with the rows beside it.
use Prim.Native.String.{◌++◌ as append}
use nest_id_p.Base.Lists.{find, any}
use nest_id_p.Base.Rows.{update_first}
use nest_id_p.Sync.Errors.{Kind, group, role, Exception, Outcome, done, threw, other_error, says}
use nest_id_p.Identity.Data.{
  Identity, User, Entity, Member, Fresh, manual, has_id, entity_has_id, set_members, set_entities,
  drop_users, drop_entities,
}
use nest_id_p.Identity.Upsert.{members_of, without_user, constraint_failed}
use nest_id_p.Base.{
  ℕ, ◌+◌, String, Bool, not, ◌&&◌, ◌||◌, Option, none, some, List, [], ◌∷◌, ◌++◌, if◌then◌else◌,
}
use nest_id_p.Base.Eq.{◌==◌, nat_eq, string_eq}

abbrev pub clashes : User → User → Bool
clashes u v =
    v.id == u.id
    || (v.username == u.username
        || (v.api_connection_id == u.api_connection_id && v.external_id == u.external_id))

abbrev pub entity_clashes : Entity → Entity → Bool
entity_clashes e f =
    f.id == e.id
    || (f.api_connection_id == e.api_connection_id
        && (f.external_id == e.external_id || f.name == e.name))

module _ (known : String → Bool) where
  abbrev pub user_fits : List User → User → Bool
  user_fits rows u = known u.api_connection_id && not (any (clashes u) rows)

  abbrev pub entity_fits : List Entity → Entity → Bool
  entity_fits rows e = known e.api_connection_id && not (any (entity_clashes e) rows)

abbrev pub member_fits : List User → List Entity → List Member → Member → Bool
member_fits users entities rows m =
    any (has_id m.user_id) users
    && (any (entity_has_id m.entity_id) entities
        && not (any (λ n. n.user_id == m.user_id && n.entity_id == m.entity_id) rows))

-- The rows of a `createMany` one after the other; none where one of them does not fit.
unfoldable pub add_members :
    List User → List Entity → List Member → List Member → Option (List Member)
add_members users entities [] rows = some rows
add_members users entities (m ∷ ms) rows =
    let rest = add_members users entities ms (rows ++ m ∷ []) in
    if member_fits users entities rows m then rest else none

unfoldable pub create_members : Kind → List Member → Identity → Identity × Outcome {0} Unit
create_members kind ms d = elim (add_members d.users (d.entities kind) ms (d.members kind)) [
  | none ↦ (d, threw constraint_failed)
  | some rows ↦ (set_members kind rows d, done tt)
]

-- A transaction answers, or what it wrote is taken back.
abbrev pub rolled_back : {A : Type 0} → Identity → Identity × Outcome A → Identity × Outcome A
rolled_back before (d, done a) = (d, done a)
rolled_back before (d, threw x) = (before, threw x)

-- The next write, unless the one before it threw.
abbrev pub then_write :
    {A B : Type 0} → Identity × Outcome A → (Identity → Identity × Outcome B) → Identity × Outcome B
then_write (d, done a) next = next d
then_write (d, threw x) next = (d, threw x)

abbrev pub manual_external_id : String → String → String
manual_external_id kind id = append "manual:" (append kind (append ":" id))

pub record CreateManualUserInput : Type 0 where
  pub api_connection_id : String
  pub username : String
  pub email : Option String
  pub display_name : Option String
  pub password_hash : String
  pub password_hash_algorithm : String
  pub active : Bool
  pub group_ids : List String
  pub role_ids : List String

pub record UpdateManualUserInput : Type 0 where
  pub username : Option String
  pub email : Option (Option String)
  pub display_name : Option (Option String)
  pub active : Option Bool
  pub password_hash : Option String
  pub group_ids : Option (List String)
  pub role_ids : Option (List String)

abbrev pub or_keep : {A : Type 0} → Option A → A → A
or_keep none old = old
or_keep (some new) old = new

abbrev pub updated_by : UpdateManualUserInput → User → User
updated_by input u = record u {
  username = or_keep input.username u.username;
  email = or_keep input.email u.email;
  display_name = or_keep input.display_name u.display_name;
  active = or_keep input.active u.active;
  password_hash = or_keep input.password_hash u.password_hash;
}

abbrev pub record_missing : Exception
record_missing = other_error (says "record not found")

-- The memberships of a user replaced, where the input names them.
unfoldable pub replace_members :
    Kind → String → Option (List String) → Identity → Identity × Outcome {0} Unit
replace_members kind id none d = (d, done tt)
replace_members kind id (some ids) d =
    create_members kind (members_of id ids) (set_members kind (without_user id (d.members kind)) d)

-- The row of a user changed through its id.
unfoldable pub change_user : (User → User) → String → Identity → Identity × Outcome {0} Unit
change_user change id d = elim (find (has_id id) d.users) [
  | none ↦ (d, threw record_missing)
  | some u ↦
      let changed = change u in
      if any (λ v. not (v.id == id) && clashes changed v) d.users
      then (d, threw constraint_failed)
      else (record d { users = update_first (has_id id) change d.users }, done tt)
]

unfoldable pub change_entity :
    Kind → (Entity → Entity) → String → Identity → Identity × Outcome {0} Unit
change_entity kind change id d = elim (find (entity_has_id id) (d.entities kind)) [
  | none ↦ (d, threw record_missing)
  | some e ↦
      let changed = change e in
      if any (λ f. not (f.id == id) && entity_clashes changed f) (d.entities kind)
      then (d, threw constraint_failed)
      else (set_entities kind (update_first (entity_has_id id) change (d.entities kind)) d, done tt)
]

module _ (fresh : Fresh) (known : String → Bool) where
  abbrev pub manual_user : ℕ → CreateManualUserInput → User
  manual_user n input = record {
    id = fresh.id_of n;
    external_id = "manual:pending";
    api_connection_id = input.api_connection_id;
    origin = manual;
    username = input.username;
    email = input.email;
    display_name = input.display_name;
    password_hash = input.password_hash;
    password_hash_algorithm = input.password_hash_algorithm;
    active = input.active;
    created_at = fresh.time_of n;
  }

  abbrev pub insert_user : User → Identity → Identity × Outcome {0} Unit
  insert_user u d =
      if user_fits known d.users u
      then (record d { users = d.users ++ u ∷ []; next_id = d.next_id + 1 }, done tt)
      else (d, threw constraint_failed)

  abbrev pub insert_entity : Kind → Entity → Identity → Identity × Outcome {0} Unit
  insert_entity kind e d =
      if entity_fits known (d.entities kind) e
      then (
        record (set_entities kind (d.entities kind ++ e ∷ []) d) { next_id = d.next_id + 1 },
        done tt,
      )
      else (d, threw constraint_failed)

  pub create_manual_user : Identity → CreateManualUserInput → Identity × Outcome {0} Unit
  create_manual_user d input =
      let u = manual_user d.next_id input in
      rolled_back d (
        then_write
          (then_write
            (then_write (insert_user u d)
              (change_user (λ v. record v { external_id = manual_external_id "user" u.id }) u.id))
            (create_members group (members_of u.id input.group_ids)))
          (create_members role (members_of u.id input.role_ids)))

  abbrev pub kind_name : Kind → String
  kind_name group = "group"
  kind_name role = "role"

  pub create_manual_entity : Identity → Kind → String → String → Identity × Outcome {0} Unit
  create_manual_entity d kind c name =
      let id = fresh.id_of d.next_id in
      let e : Entity = record {
        id = id;
        external_id = "manual:pending";
        api_connection_id = c;
        origin = manual;
        name = name;
        created_at = fresh.time_of d.next_id;
      } in
      rolled_back d (
        then_write (insert_entity kind e d) (
          change_entity kind
            (λ f. record f { external_id = manual_external_id (kind_name kind) id }) id))

pub update_manual_user : Identity → String → UpdateManualUserInput → Identity × Outcome {0} Unit
update_manual_user d id input = rolled_back d (
    then_write
      (then_write (change_user (updated_by input) id d) (replace_members group id input.group_ids))
      (replace_members role id input.role_ids))

pub update_entity_name : Identity → Kind → String → String → Identity × Outcome {0} Unit
update_entity_name d kind id name = change_entity kind (λ e. record e { name = name }) id d

unfoldable pub delete_user : Identity → String → Identity × Outcome {0} Unit
delete_user d id =
    if any (has_id id) d.users
    then (drop_users (has_id id) d, done tt)
    else (d, threw record_missing)

unfoldable pub delete_entity : Identity → Kind → String → Identity × Outcome {0} Unit
delete_entity d kind id =
    if any (entity_has_id id) (d.entities kind)
    then (drop_entities kind (entity_has_id id) d, done tt)
    else (d, threw record_missing)
