-- ===== src/Sync/Errors.antt =====
use nest_id_p.Base.{
  ℕ, zero, suc, ◌+◌, ◌-◌, ◌*◌, ◌^◌, ◌≤◌, ◌<◌, ◌≡◌, ◌≢◌, ◌↔◌, ◌⊎◌, inl, inr, refl, sym, ap, ◌∙◌, min,
  max, String, Bool, true, false, not, ◌&&◌, ◌||◌, Option, none, some, List, [], ◌∷◌, ◌++◌, map,
  arith, leb, ltb, nat_beq, if◌then◌else◌, length, take, keep, All, Bool-cases, Option-cases,
}
use nest_id_p.Base.Eq.{Eq, ◌==◌, nat_eq, string_eq, contains, beq_refl, beq-false}
use nest_id_p.Base.Maps.{Map, get, set, delete, retain}
use nest_id_p.Base.Text.{Text, codes}
use nest_id_p.Base.Text.{Text, codes}
use nest_id_p.Base.Tests.{nat_beq}
use Prim.Native.String.{String, ◌∷◌, []}
use Prim.Native.Nat.{ℕ}
use nest_id_p.Base.{
  Bool, List, Option, String, if◌then◌else◌, none, ℕ, some, true, ◌++◌, [], false, leb, ◌||◌,
  length, nat_beq, take, ◌&&◌,
}
-- apps/api/src/sync/utils/sync-errors.ts, services/sync-error-entries.util.ts and the cap of
-- services/sync-log.service.ts: the errors that a run records. A message that the source makes of a
-- template is a constructor with what the template shows.
pub mod Cap

pub data Kind : Type 0 where
  group role : Kind

abbrev pub kind_beq : Kind → Kind → Bool
kind_beq group group = true
kind_beq role role = true
kind_beq _ _ = false

pub data Message : Type 0 where
  says : String → Message
  user_count_exceeds_limit : ℕ → Message
  missing_user_id bad_user_id : ℕ → Message
  none_has_user_id : ℕ → Message
  username_owned_by : String → Option String → Message
  and_more : Message → ℕ → Message

-- What the calls throw, of the classes that the run tells apart.
pub data Exception : Type 0 where
  validation_error : Message → Exception
  http_error oauth_token_error : Message → Option ℕ → Exception
  username_collision_error : String → String → Message → Exception
  name_collision_error : Kind → Message → Exception
  not_found_error bad_request_error conflict_error : Message → Exception
  strict_row_error : Exception
  other_error : Message → Exception

abbrev pub message_of : Exception → Message
message_of (validation_error m) = m
message_of (http_error m status) = m
message_of (oauth_token_error m status) = m
message_of (username_collision_error external_id name m) = m
message_of (name_collision_error kind m) = m
message_of strict_row_error = says ""
message_of (not_found_error m) = m
message_of (bad_request_error m) = m
message_of (conflict_error m) = m
message_of (other_error m) = m

pub data Outcome {ℓ} (A : Type ℓ) : Type ℓ where
  done : A → Outcome A
  threw : Exception → Outcome A

pub data Phase : Type 0 where
  oauth decrypt_credentials user_limit fetch_users parse_users upsert_user : Phase
  username_collision fetch_groups fetch_roles upsert_group upsert_role : Phase
  dry_run_summary internal concurrency truncated : Phase

pub record ErrorEntry : Type 0 where
  pub phase : Phase
  pub message : Message
  pub external_user_id : Option String
  pub external_group_id : Option String
  pub external_role_id : Option String
  pub http_status : Option ℕ
  pub username : Option String
  pub owner_api_connection_id : Option String
  pub owner_label : Option String

-- An entry with no optional field.
abbrev pub entry : Phase → Message → ErrorEntry
entry phase message = record {
  phase = phase;
  message = message;
  external_user_id = none;
  external_group_id = none;
  external_role_id = none;
  http_status = none;
  username = none;
  owner_api_connection_id = none;
  owner_label = none;
}

-- `SyncErrors.add`.
abbrev pub add : List ErrorEntry → ErrorEntry → List ErrorEntry
add errors e = errors ++ e ∷ []

abbrev pub max_sync_errors : ℕ
max_sync_errors = 100

unfoldable pub cap_sync_errors : List ErrorEntry → Option (List ErrorEntry)
cap_sync_errors [] = none
cap_sync_errors (e ∷ errors) =
    if leb (length (e ∷ errors)) max_sync_errors
    then some (e ∷ errors)
    else some (
        take (max_sync_errors - 1) (e ∷ errors)
        ++ entry truncated (says "Additional errors truncated") ∷ [])

pub append_sync_error : List ErrorEntry → ErrorEntry → List ErrorEntry
append_sync_error errors e = elim (cap_sync_errors (errors ++ e ∷ [])) [
  | some capped ↦ capped
  | none ↦ errors ++ e ∷ []
]

abbrev pub starts_with : Text → Text → Bool
starts_with [] s = true
starts_with (c ∷ word) [] = false
starts_with (c ∷ word) (d ∷ s) = nat_beq c d && starts_with word s

abbrev pub includes_word : Text → Text → Bool
includes_word word [] = starts_with word []
includes_word word (c ∷ s) = starts_with word (c ∷ s) || includes_word word s

-- `error.message.includes('limit')`.
abbrev pub mentions_limit : Message → Bool
mentions_limit (says s) = includes_word (codes "limit") (codes s)
mentions_limit (user_count_exceeds_limit n) = true
mentions_limit _ = false

unfoldable pub push_fetch_users_error : List ErrorEntry → Exception → List ErrorEntry
push_fetch_users_error errors (validation_error m) =
    add errors (entry (if mentions_limit m then user_limit else fetch_users) m)
push_fetch_users_error errors (http_error m status) =
    add errors (record (entry (if mentions_limit m then user_limit else fetch_users) m) {
      http_status = status;
    })
push_fetch_users_error errors _ = add errors (entry fetch_users (says "Failed to fetch users"))

unfoldable pub push_upsert_user_error : List ErrorEntry → String → List ErrorEntry
push_upsert_user_error errors external_user_id =
    add errors (record (entry upsert_user (says "Failed to upsert user")) {
      external_user_id = some external_user_id;
    })

abbrev pub fetch_phase : Kind → Phase
fetch_phase group = fetch_groups
fetch_phase role = fetch_roles

abbrev pub upsert_phase : Kind → Phase
upsert_phase group = upsert_group
upsert_phase role = upsert_role

abbrev pub fetch_failed_message : Kind → Message
fetch_failed_message group = says "Failed to fetch groups"
fetch_failed_message role = says "Failed to fetch roles"

abbrev pub invalid_row_message : Kind → Message
invalid_row_message group = says "Invalid group row"
invalid_row_message role = says "Invalid role row"

abbrev pub upsert_failed_message : Kind → Message
upsert_failed_message group = says "Failed to upsert group"
upsert_failed_message role = says "Failed to upsert role"

unfoldable pub push_membership_fetch_error :
    List ErrorEntry → Kind → String → Exception → List ErrorEntry
push_membership_fetch_error errors kind external_user_id (http_error m status) =
    add errors (record (entry (fetch_phase kind) m) {
      external_user_id = some external_user_id;
      http_status = status;
    })
push_membership_fetch_error errors kind external_user_id _ =
    add errors (record (entry (fetch_phase kind) (fetch_failed_message kind)) {
      external_user_id = some external_user_id;
    })

unfoldable pub push_membership_row_parse_error :
    List ErrorEntry → Kind → String → Exception → List ErrorEntry
push_membership_row_parse_error errors kind external_user_id (validation_error m) =
    add errors (record (entry (upsert_phase kind) m) { external_user_id = some external_user_id })
push_membership_row_parse_error errors kind external_user_id _ =
    add errors (record (entry (upsert_phase kind) (invalid_row_message kind)) {
      external_user_id = some external_user_id;
    })

abbrev pub upsert_message : Kind → Exception → Message
upsert_message kind (name_collision_error k m) =
    if kind_beq k kind then m else upsert_failed_message kind
upsert_message kind _ = upsert_failed_message kind

unfoldable pub push_upsert_entity_error :
    List ErrorEntry → Kind → String → String → Exception → List ErrorEntry
push_upsert_entity_error errors group external_user_id external_id e =
    add errors (record (entry upsert_group (upsert_message group e)) {
      external_user_id = some external_user_id;
      external_group_id = some external_id;
    })
push_upsert_entity_error errors role external_user_id external_id e =
    add errors (record (entry upsert_role (upsert_message role e)) {
      external_user_id = some external_user_id;
      external_role_id = some external_id;
    })

pub Outcome-cases {ℓ} :
    {A : Type ℓ} (o : Outcome A) → ((a : A) × (o ≡ done a)) ⊎ ((e : Exception) × (o ≡ threw e))
Outcome-cases (done a) = inl (a, refl)
Outcome-cases (threw e) = inr (e, refl)
