-- ===== src/Identity/Data.antt =====
-- The rows of apps/api/src/identity/store/identity-store.ts and the tables of
-- apps/api/prisma/schema.prisma that hold them. The tables of groups and roles have the same
-- columns, and stand under their kind. A new row has the next id and the next time of creation of
-- what the database gives out; the time of the last update, which nothing reads, is left out.
use nest_id_p.Base.{ℕ, String, Bool, true, false, not, ◌&&◌, Option, none, some, List, [], keep}
use nest_id_p.Base.Eq.{◌==◌, nat_eq, string_eq}
use nest_id_p.Base.{any}
use nest_id_p.Sync.Counters.{put}
use nest_id_p.Sync.Errors.{Kind}
use nest_id_p.AuthProtection.Lockout.{Table}

pub data Origin : Type 0 where
  manual synced : Origin

abbrev pub is_synced : Origin → Bool
is_synced synced = true
is_synced manual = false

-- `StoreUser`.
pub record User : Type 0 where
  pub id : String
  pub external_id : String
  pub api_connection_id : String
  pub origin : Origin
  pub username : String
  pub email : Option String
  pub display_name : Option String
  pub password_hash : String
  pub password_hash_algorithm : String
  pub active : Bool
  pub created_at : ℕ

-- `StoreGroup` and `StoreRole`.
pub record Entity : Type 0 where
  pub id : String
  pub external_id : String
  pub api_connection_id : String
  pub origin : Origin
  pub name : String
  pub created_at : ℕ

-- A row of `UserGroup` or `UserRole`.
pub record Member : Type 0 where
  pub user_id : String
  pub entity_id : String

-- The lockouts are those that a change of a password clears.
pub record Identity : Type 0 where
  pub users : List User
  pub entities : Kind → List Entity
  pub members : Kind → List Member
  pub lockouts : Table
  pub next_id : ℕ

-- What the database and the clock give to a new row.
pub record Fresh : Type 0 where
  pub id_of : ℕ → String
  pub time_of : ℕ → ℕ

abbrev pub no_identity : Identity
no_identity = record {
  users = [];
  entities = λ kind. [];
  members = λ kind. [];
  lockouts = [];
  next_id = 0;
}

abbrev pub has_id : String → User → Bool
has_id id u = u.id == id

abbrev pub has_username : String → User → Bool
has_username name u = u.username == name

-- The unique index on the source and the external id.
abbrev pub has_external : String → String → User → Bool
has_external connection_id external_id u =
    u.api_connection_id == connection_id && u.external_id == external_id

abbrev pub entity_has_id : String → Entity → Bool
entity_has_id id e = e.id == id

abbrev pub entity_has_external : String → String → Entity → Bool
entity_has_external connection_id external_id e =
    e.api_connection_id == connection_id && e.external_id == external_id

-- The unique index on the source and the name.
abbrev pub entity_has_name : String → String → Entity → Bool
entity_has_name connection_id name e = e.api_connection_id == connection_id && e.name == name

abbrev pub is_present {ℓ} : {A : Type ℓ} → Option A → Bool
is_present none = false
is_present (some a) = true

-- A deletion of rows by their ids takes their memberships with it.
abbrev pub drop_users : (User → Bool) → Identity → Identity
drop_users gone d = record d {
  users = keep (λ u. not (gone u)) d.users;
  members =
      λ kind. keep (λ m. not (any (λ u. gone u && u.id == m.user_id) d.users)) (d.members kind);
}

abbrev pub drop_entities : Kind → (Entity → Bool) → Identity → Identity
drop_entities kind gone d = record d {
  entities = put kind (keep (λ e. not (gone e)) (d.entities kind)) d.entities;
  members =
      put kind
        (keep (λ m. not (any (λ e. gone e && e.id == m.entity_id) (d.entities kind)))
          (d.members kind))
        d.members;
}

abbrev pub set_entities : Kind → List Entity → Identity → Identity
set_entities kind rows d = record d { entities = put kind rows d.entities }

abbrev pub set_members : Kind → List Member → Identity → Identity
set_members kind rows d = record d { members = put kind rows d.members }
