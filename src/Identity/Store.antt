-- ===== src/Identity/Store.antt =====
-- The repository as the store that a run of apps/api/src/sync/services/sync.service.ts writes, and
-- what whole runs keep of it. The owner of a username, for the report of a collision, is that of
-- recordUsernameCollision.
use nest_id_p.Base.{
  ℕ, ◌≡◌, refl, sym, ap, ◌∙◌, String, Bool, true, false, Option, none, some, List, arith, keep,
}
use nest_id_p.Base.Eq.{nat_eq, string_eq}
use nest_id_p.Base.Maps.{Map, get}
use mathlib.Core.Path.{subst}
use nest_id_p.Base.{find}
use nest_id_p.Sync.Errors.{Outcome, done}
use nest_id_p.Sync.Log.{TriggerSource}
use nest_id_p.Sync.Directory.{
  Connection, Contract, Source, Directory, Owner, World, Preserves, CollisionPolicy, ExternalUser,
}
use nest_id_p.Sync.Users.{RunState}
use nest_id_p.Sync.Run.Sweep.{phases-Swept}
use nest_id_p.Identity.Upsert.Sweep.{IsSwept, deactivate-IsSwept, delete_orphans-IsSwept}
use nest_id_p.Sync.Run.{phases, trigger_sync}
use nest_id_p.Sync.Run.Preserves.{trigger_sync-keeps}
use nest_id_p.Identity.Data.{Identity, User, Fresh, has_username}
use nest_id_p.Identity.Upsert.{
  upsert_user, upsert_entity, replace_user_entities, deactivate_users_not_in_external_ids,
  delete_orphans,
}
use nest_id_p.Identity.Upsert.Unique.{UsersUnique, upsert_user-UsersUnique, deactivate-UsersUnique}
use nest_id_p.Identity.Upsert.Outside.{
  users_outside, is_outside, upsert_user-outside, upsert_entity-users, replace_user_entities-users,
  deactivate-outside, delete_orphans-users,
}

abbrev pub owner_in : Map String Connection → Identity → String → Option Owner
owner_in connections d username = elim (find (has_username username) d.users) [
  | none ↦ none
  | some u ↦ elim (get u.api_connection_id connections) [
    | none ↦ none
    | some c ↦ some (record {
      api_connection_id = u.api_connection_id;
      name = c.name;
      is_local_directory = c.is_local_directory;
    })
  ]
]

some-injective : {A : Type 0} (a b : A) → some a ≡ some b → a ≡ b
some-injective a b h = ground (arith, h)

module _ (to_lower : String → String) (fresh : Fresh) (connections : Map String Connection) where
  abbrev pub repository : Directory Identity
  repository = record {
    upsert_user = upsert_user to_lower fresh;
    upsert_entity = upsert_entity fresh;
    replace_user_entities = replace_user_entities;
    deactivate_users_not_in = deactivate_users_not_in_external_ids;
    delete_orphans = delete_orphans;
    owner_of = owner_in connections;
  }

  -- What depends on the users only is kept by the operations that do not write them.
  users-Preserves :
      (c : String) (Q : List User → Type 0)
      → ((d : Identity) (u : ExternalUser)
          → Q d.users
          → Q (upsert_user to_lower fresh d c u).0.users)
      → ((d : Identity) (seen : List String)
          → Q d.users
          → Q (deactivate_users_not_in_external_ids d c seen).0.users)
      → Preserves repository c (λ d. Q d.users)
  users-Preserves c Q by_upsert by_deactivation = record {
    by_user = by_upsert;
    by_entity = λ d kind e q. subst (λ l. Q l) (sym (upsert_entity-users fresh d kind c e)) q;
    by_replace =
        λ d kind i ids q. subst (λ l. Q l) (sym (replace_user_entities-users d kind i ids)) q;
    by_deactivate = by_deactivation;
    by_orphans = λ d kind seen q. subst (λ l. Q l) (sym (delete_orphans-users d kind c seen)) q;
  }

  -- A whole run of a connection, whatever the source answers and however it ends, keeps every user
  -- that was made by hand and every user of another connection, as they were and in their order.
  pub trigger_sync-outside :
      {Json : Type 0} (contract : Contract Json) (source : Source Json) (stale_minutes : ℕ)
      (resolved : Outcome {0} Unit) (global : CollisionPolicy) (w : World Identity) (id : String)
      (c : Connection) (dry_run : Bool) (src : TriggerSource) (now later : ℕ)
      → get id w.connections ≡ some c
      → users_outside c.id
          (trigger_sync contract source repository stale_minutes resolved global w id dry_run src
            now later).0.directory
        ≡ users_outside c.id w.directory
  trigger_sync-outside contract source stale_minutes resolved global w id c dry_run src now later
        row =
      trigger_sync-keeps contract source repository
        (λ d. users_outside c.id d ≡ users_outside c.id w.directory) stale_minutes resolved global w
        id dry_run src now later
        (λ c2 row2.
          subst
            (λ (n : String).
              Preserves repository n (λ d. users_outside c.id d ≡ users_outside c.id w.directory))
            (ap (λ (o : Connection). o.id) (some-injective c c2 (sym row ∙ row2)))
            (users-Preserves c.id (λ l. keep (is_outside c.id) l ≡ users_outside c.id w.directory)
              (λ d u q. upsert_user-outside to_lower fresh d c.id u ∙ q)
              (λ d seen q. deactivate-outside d c.id seen ∙ q)))
        refl

  -- Usernames, and external ids within each source, stay unique through a whole run, whatever the
  -- source answers and however the run ends.
  pub trigger_sync-UsersUnique :
      {Json : Type 0} (contract : Contract Json) (source : Source Json) (stale_minutes : ℕ)
      (resolved : Outcome {0} Unit) (global : CollisionPolicy) (w : World Identity) (id : String)
      (dry_run : Bool) (src : TriggerSource) (now later : ℕ)
      → UsersUnique w.directory.users
      → UsersUnique
          (trigger_sync contract source repository stale_minutes resolved global w id dry_run src
            now later).0.directory.users
  trigger_sync-UsersUnique contract source stale_minutes resolved global w id dry_run src now later
        unique =
      trigger_sync-keeps contract source repository (λ d. UsersUnique d.users) stale_minutes
        resolved global w id dry_run src now later
        (λ c row.
          users-Preserves c.id (λ l. UsersUnique l)
            (λ d u. upsert_user-UsersUnique to_lower fresh d c.id u)
            (λ d. deactivate-UsersUnique d c.id))
        unique

  -- A real run whose phases succeed leaves no active synchronised user of its connection whose
  -- external id was not seen in the run.
  pub phases-IsSwept :
      {Json : Type 0} (contract : Contract Json) (source : Source Json) (c : Connection)
      (global : CollisionPolicy) (s : RunState Identity)
      → (phases contract source repository c global false s).1 ≡ done true
      → IsSwept c.id
          (phases contract source repository c global false s).0.counters.seen_users
          (phases contract source repository c global false s).0.directory
  phases-IsSwept contract source c global s =
      phases-Swept contract source repository c (λ seen d. IsSwept c.id seen d)
        (λ d seen. deactivate-IsSwept d c.id seen)
        (λ d seen kind orphans. delete_orphans-IsSwept d kind c.id seen orphans) global s
