-- ===== src/Examples/IdentityExamples.antt =====
-- The identity repository on concrete rows.
use nest_id_p.Base.{
  ◌≤◌, ◌≡◌, ◌⊎◌, inl, inr, refl, String, true, false, none, some, [], ◌∷◌, arith, nat_beq,
  if◌then◌else◌, Bool-cases,
}
use nest_id_p.Base.Eq.{◌==◌, nat_eq, string_eq}
use nest_id_p.Base.Maps.{Map, get}
use mathlib.Core.Path.{subst}
use nest_id_p.Base.Lists.{find, any}
use nest_id_p.Base.Rows.{count}
use nest_id_p.Sync.Errors.{group, done, threw}
use nest_id_p.Sync.Counters.{new_counters}
use nest_id_p.Sync.Log.{manual}
use nest_id_p.Sync.Users.{
  fetch_and_map_users, resolve_bearer, fetch_with_bearer, read_users, fetch_with_refresh,
  assert_users_array_within_limit, detect_duplicate_user_ids, repeats, usable_ids, map_users,
  collect_rows, process_users, with_token,
}
use nest_id_p.Sync.Memberships.{apply_user_memberships, apply_users, apply_memberships}
use nest_id_p.Sync.Run.{after_users, deactivate_orphans, delete_kind}
use nest_id_p.Sync.Counters.{should_skip_orphan_deletion, set_deactivated}
use nest_id_p.Identity.Upsert.{
  delete_orphans, deactivate_users_not_in_external_ids, upsert_entity, upsert_named,
  cross_connection, constraint_failed,
}
use nest_id_p.Sync.Directory.{Contract, Connection, World, skip, ExternalUser}
use nest_id_p.Sync.Users.{RunState, ProcessedUser}
use nest_id_p.Sync.Memberships.{MembershipRaw, apply_kind}
use nest_id_p.Sync.Run.{trigger_sync, phases}
use nest_id_p.Examples.SyncExamples.{contract, source, hr}
use nest_id_p.Identity.Data.{
  Identity, User, Entity, Fresh, Origin, no_identity, has_username, has_external,
}
use nest_id_p.Identity.Upsert.Unique.{UsersUnique}
use nest_id_p.Identity.Upsert.Outside.{users_outside}
use nest_id_p.Identity.Upsert.Sweep.{IsSwept}
use nest_id_p.Identity.Store.{
  repository, trigger_sync-outside, trigger_sync-UsersUnique, phases-IsSwept,
}
use nest_id_p.Sync.Memberships.{apply_entity, apply_memberships}
use nest_id_p.Identity.Repeats.{apply_kind-repeated}
use nest_id_p.Identity.Transfer.{ImportMode, import_snapshot, export_all, wipe_all}
use nest_id_p.Identity.Transfer.Import.{Restores, Stored, import_snapshot-export_all}

abbrev lower : String → String
lower s = s

-- An id for each number of a row: a text that grows.
abbrev fresh : Fresh
fresh = record { id_of = λ n. if nat_beq n 0 then "r0" else "r1"; time_of = λ n. n }

abbrev bob : User
bob = record {
  id = "b";
  external_id = "manual:user:b";
  api_connection_id = "local";
  origin = Origin.manual;
  username = "bob";
  email = none;
  display_name = none;
  password_hash = "h";
  password_hash_algorithm = "bcrypt";
  active = true;
  created_at = 0;
}

-- A user of the source that it no longer lists.
abbrev carol : User
carol = record bob {
  id = "c";
  external_id = "carol";
  api_connection_id = "hr";
  origin = Origin.synced;
  username = "carol";
}

abbrev held : Identity
held = record no_identity { users = bob ∷ carol ∷ [] }

abbrev connections : Map String Connection
connections = ("hr", hr) ∷ []

abbrev world : World Identity
world = record {
  directory = held;
  connections = connections;
  logs = record { rows = []; next_id = 7 };
  audit = [];
}

trigger_sync-outside_example :
    users_outside "hr"
      (trigger_sync contract source
        (repository lower fresh connections)
        60
        (done tt)
        skip
        world
        "hr"
        false
        manual
        5
        9).0.directory
    ≡ users_outside "hr" held
unfolding get
trigger_sync-outside_example =
    trigger_sync-outside lower fresh connections contract source 60 (done tt) skip world "hr" hr
      false manual 5 9 refl

held_unique : UsersUnique held.users
unfolding count
held_unique = (
  λ name. elim (Bool-cases ("bob" == name)) [
    | inl e ↦
        subst (λ (n : String). count (has_username n) held.users ≤ 1)
          ((string_eq.beq_iff "bob" name).0 e) (omega arith)
    | inr e ↦ ground (arith, e)
  ],
  λ c id. elim (Bool-cases ("local" == c)) [
    | inl e ↦
        subst (λ (n : String). count (has_external n id) held.users ≤ 1)
          ((string_eq.beq_iff "local" c).0 e) (ground arith)
    | inr e ↦ ground (arith, e)
  ],
)

trigger_sync-UsersUnique_example :
    UsersUnique
      (trigger_sync contract source
        (repository lower fresh connections)
        60
        (done tt)
        skip
        world
        "hr"
        false
        manual
        5
        9).0.directory.users
trigger_sync-UsersUnique_example =
    trigger_sync-UsersUnique lower fresh connections contract source 60 (done tt) skip world "hr"
      false manual 5 9 held_unique

abbrev dave : ExternalUser
dave = record {
  id = "dave";
  username = "dave";
  email = none;
  display_name = none;
  password_hash = "h";
  password_hash_algorithm = "bcrypt";
  active = true;
}

-- A source that lists nobody.
abbrev nobody : Contract String
nobody = record contract { as_array = λ body. some [] }

abbrev run : RunState Identity
run = record { directory = held; counters = new_counters; errors = []; audit = [] }

phases-IsSwept_example :
    IsSwept "hr"
      (phases nobody source
        (repository lower fresh connections)
        hr
        skip
        false
        run).0.counters.seen_users
      (phases nobody source (repository lower fresh connections) hr skip false run).0.directory
unfolding phases fetch_and_map_users resolve_bearer fetch_with_bearer read_users fetch_with_refresh
    assert_users_array_within_limit detect_duplicate_user_ids repeats usable_ids map_users
    collect_rows process_users with_token after_users apply_user_memberships apply_users
    deactivate_orphans delete_kind should_skip_orphan_deletion delete_orphans
    deactivate_users_not_in_external_ids set_deactivated
phases-IsSwept_example = phases-IsSwept lower fresh connections nobody source hr skip run refl

abbrev alice : ProcessedUser String
alice = record { external_user_id = "alice"; raw_row = "alice"; local_user_id = some "a" }

abbrev twice : MembershipRaw String
twice = record {
  raw_by_kind = λ kind. some ("sales" ∷ "staff" ∷ "staff" ∷ []);
  error_by_kind = λ kind. none;
}

apply_kind-repeated_example :
    ((apply_kind contract source
        (repository lower fresh connections)
        hr
        false
        alice
        (some twice)
        group
        run).1
      ≡ threw (cross_connection group))
    ⊎ ((apply_kind contract source
          (repository lower fresh connections)
          hr
          false
          alice
          (some twice)
          group
          run).1
        ≡ threw constraint_failed)
unfolding find any apply_memberships apply_entity upsert_entity upsert_named
apply_kind-repeated_example =
    apply_kind-repeated lower fresh connections contract source hr alice (some twice) group
      ("sales" ∷ []) "staff" [] (record { id = "staff"; name = "staff" }) "a" "r1" run refl refl
      refl refl refl

abbrev staff : Entity
staff = record {
  id = "g";
  external_id = "manual:group:g";
  api_connection_id = "local";
  origin = Origin.manual;
  name = "staff";
  created_at = 0;
}

abbrev joined : Identity
joined = record held {
  entities = λ kind. staff ∷ [];
  members = λ kind. record { user_id = "b"; entity_id = "g" } ∷ [];
}

joined-Stored : Stored (λ c. true) joined
unfolding any
joined-Stored = record {
  users_fit = (refl, (refl, tt));
  entities_fit = λ kind. (refl, tt);
  members_fit = λ kind. (refl, tt);
}

import_snapshot-export_all_example :
    Restores joined
      (import_snapshot (λ c. true) ImportMode.upsert (export_all joined) (wipe_all held))
import_snapshot-export_all_example =
    import_snapshot-export_all (λ c. true) ImportMode.upsert joined held joined-Stored
