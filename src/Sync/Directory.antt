-- ===== src/Sync/Directory.antt =====
-- What a run of apps/api/src/sync/services/sync.service.ts reads and calls: the connection row, the
-- rows of the external source, read through its contract, and the identity store. The store and the
-- source are interfaces; an operation that throws may have changed the store before.
use nest_id_p.Base.{
  refl, inl, inr, ◌≡◌, ◌⊎◌, ℕ, String, Bool, Option, none, some, List, [], ◌∷◌, ◌++◌, ◌≡◌, ◌⊎◌, inl,
  inr, refl,
}
use nest_id_p.Base.Eq.{nat_eq, string_eq}
use nest_id_p.Base.Maps.{Map, get, set}
use nest_id_p.Sync.Errors.{Kind, Message, Outcome}
use nest_id_p.Sync.Log.{Logs}

pub data LastSyncStatus : Type 0 where
  never in_progress succeeded failed : LastSyncStatus

pub data CollisionPolicy : Type 0 where
  skip fail_run : CollisionPolicy

-- `ApiConnection`, of which the run and the scheduler read these columns.
pub record Connection : Type 0 where
  pub id : String
  pub name : String
  pub is_local_directory : Bool
  pub uses_oauth : Bool
  pub include_in_sync_all : Bool
  pub username_collision_policy : Option String
  pub last_sync_at : Option ℕ
  pub last_sync_status : LastSyncStatus
  pub last_collision_count : ℕ
  pub schedule_enabled : Bool
  pub schedule_paused : Bool
  pub schedule_dry_run : Bool
  pub schedule_cron : Option String
  pub schedule_timezone : Option String
  pub next_run_at : Option ℕ
  pub last_scheduled_run_at : Option ℕ
  pub last_scheduled_run_status : Option LastSyncStatus
  pub schedule_last_error : Option Message
  pub schedule_consecutive_failures : ℕ
  pub schedule_auto_paused_at : Option ℕ

-- What stands at the path of a user's id: nothing, a value that is no text or a blank one, or a
-- text, trimmed.
pub data IdValue : Type 0 where
  missing unusable : IdValue
  usable : String → IdValue

pub record ExternalUser : Type 0 where
  pub id : String
  pub username : String
  pub email : Option String
  pub display_name : Option String
  pub password_hash : String
  pub password_hash_algorithm : String
  pub active : Bool

-- `ExternalGroupDto` and `ExternalRoleDto`.
pub record ExternalEntity : Type 0 where
  pub id : String
  pub name : String

-- The resolved contract of a connection; `Json` stands for values of type `unknown`.
pub record Contract (Json : Type 0) : Type 0 where
  pub as_array : Json → Option (List Json)
  pub id_value : Json → IdValue
  pub map_user_row : Json → Outcome ExternalUser
  pub map_entity_row : Kind → Json → Outcome ExternalEntity
  pub embedded : Kind → Bool
  pub embedded_value : Kind → Json → Option Json
  pub embedded_cap : Kind → Option ℕ
  pub fails_on_row_error : Bool

-- The external source, with the token service and the encryption of the credentials.
pub record Source (Json : Type 0) : Type 0 where
  pub get_access_token : Bool → Outcome String
  pub decrypt : Outcome String
  pub fetch_users_raw : String → Outcome Json
  pub fetch_entities_raw : Kind → String → String → Outcome (List Json)
  pub max_users_per_run : ℕ

-- The present owner of a username.
pub record Owner : Type 0 where
  pub api_connection_id : String
  pub name : String
  pub is_local_directory : Bool

-- The identity store; `owner_of` is absent also where its lookup fails.
pub record Directory (D : Type 0) : Type 0 where
  pub upsert_user : D → String → ExternalUser → D × Outcome String
  pub upsert_entity : D → Kind → String → ExternalEntity → D × Outcome String
  pub replace_user_entities : D → Kind → String → List String → D × Outcome {0} Unit
  pub deactivate_users_not_in : D → String → List String → D × Outcome ℕ
  pub delete_orphans : D → Kind → String → List String → D × Outcome ℕ
  pub owner_of : D → String → Option Owner

-- What the operations of a store keep when they are called with a connection.
pub record Preserves {D : Type 0} (store : Directory D) (id : String) (P : D → Type 0)
    : Type 0 where
  pub by_user : (d : D) (u : ExternalUser) → P d → P (store.upsert_user d id u).0
  pub by_entity :
      (d : D) (kind : Kind) (e : ExternalEntity) → P d → P (store.upsert_entity d kind id e).0
  pub by_replace :
      (d : D) (kind : Kind) (user_id : String) (ids : List String)
      → P d
      → P (store.replace_user_entities d kind user_id ids).0
  pub by_deactivate :
      (d : D) (seen : List String) → P d → P (store.deactivate_users_not_in d id seen).0
  pub by_orphans :
      (d : D) (kind : Kind) (seen : List String) → P d → P (store.delete_orphans d kind id seen).0

pub data SyncAudit : Type 0 where
  username_collided : String → String → String → Option String → SyncAudit
  sync_completed sync_failed : ℕ → ℕ → ℕ → SyncAudit
  sync_all_triggered : ℕ → Bool → SyncAudit
  scheduled_run_skipped : String → SyncAudit
  scheduled_run_started : String → Bool → SyncAudit
  scheduled_run_failed : String → ℕ → Option ℕ → SyncAudit
  schedule_auto_paused : String → ℕ → ℕ → SyncAudit

-- What the services change: the identity store, the tables of connections and logs, the audit log.
pub record World (D : Type 0) : Type 0 where
  pub directory : D
  pub connections : Map String Connection
  pub logs : Logs
  pub audit : List SyncAudit

-- `prisma.apiConnection.update`; the row is known to exist.
unfoldable pub update_connection :
    {D : Type 0} → World D → String → (Connection → Connection) → World D
update_connection w id change = elim (get id w.connections) [
  | none ↦ w
  | some c ↦ record w { connections = set id (change c) w.connections }
]

abbrev pub record_safe : {D : Type 0} → World D → SyncAudit → World D
record_safe w event = record w { audit = w.audit ++ event ∷ [] }

pub IdValue-cases :
    (v : IdValue) → ((id : String) × (v ≡ usable id)) ⊎ ((v ≡ missing) ⊎ (v ≡ unusable))
IdValue-cases (usable id) = inl (id, refl)
IdValue-cases missing = inr (inl refl)
IdValue-cases unusable = inr (inr refl)
