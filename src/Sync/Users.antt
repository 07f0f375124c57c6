-- ===== src/Sync/Users.antt =====
-- apps/api/src/sync/services/sync.service.ts, phase A of a run: the bearer token, the rows of the
-- users, and their upserts.
pub mod FailRun
pub mod Laws
pub mod Preserves
use nest_id_p.Base.{
  ℕ, zero, suc, ◌+◌, ◌-◌, ◌*◌, ◌^◌, ◌≤◌, ◌<◌, ◌≡◌, ◌≢◌, ◌↔◌, ◌⊎◌, inl, inr, refl, sym, ap, ◌∙◌, min,
  max, String, Bool, true, false, not, ◌&&◌, ◌||◌, Option, none, some, List, [], ◌∷◌, ◌++◌, map,
  arith, leb, ltb, nat_beq, if◌then◌else◌, length, take, keep, All, Bool-cases, Option-cases,
}
use nest_id_p.Base.Eq.{Eq, ◌==◌, nat_eq, string_eq, contains, beq_refl, beq-false}
use nest_id_p.Base.Maps.{Map, get, set, delete, retain}
use nest_id_p.Base.Text.{Text, codes}
use nest_id_p.Sync.Errors.{
  Kind, group, role, Message, Exception, Outcome, done, threw, ErrorEntry, entry, add,
  decrypt_credentials, push_fetch_users_error, username_collision, validation_error, http_error,
  oauth_token_error, oauth, parse_users, says, username_owned_by, username_collision_error,
  missing_user_id, none_has_user_id, strict_row_error, user_count_exceeds_limit, bad_user_id,
  push_upsert_user_error,
}
use nest_id_p.Sync.Counters.{SyncCounters, see_user, add_collision, add_user}
use nest_id_p.Sync.Directory.{
  CollisionPolicy, skip, fail_run, missing, unusable, usable, SyncAudit, username_collided, Owner,
  ExternalUser, Connection, Contract, Source, Directory, CollisionPolicy, Owner, SyncAudit, usable,
  ExternalUser, missing, username_collided,
}

-- The mutable state of a run.
pub record RunState (D : Type 0) : Type 0 where
  pub directory : D
  pub counters : SyncCounters
  pub errors : List ErrorEntry
  pub audit : List SyncAudit

pub record ProcessedUser (Json : Type 0) : Type 0 where
  pub external_user_id : String
  pub raw_row : Json
  pub local_user_id : Option String

abbrev pub add_error : {D : Type 0} → RunState D → ErrorEntry → RunState D
add_error s e = record s { errors = add s.errors e }

abbrev pub policy_of : Option String → CollisionPolicy → CollisionPolicy
policy_of none global = global
policy_of (some text) global =
    if text == "skip" then skip else if text == "fail_run" then fail_run else global

abbrev pub is_unauthorized : Exception → Bool
is_unauthorized (http_error m (some status)) = status == 401
is_unauthorized _ = false

abbrev pub oauth_error : Exception → ErrorEntry
oauth_error (oauth_token_error m status) = record (entry oauth m) { http_status = status }
oauth_error _ = entry oauth (says "OAuth token acquisition failed")

abbrev pub row_message : Exception → Message
row_message (validation_error m) = m
row_message _ = says "Invalid user row"

abbrev pub owner_label : Option Owner → Option String
owner_label none = none
owner_label (some o) = some (if o.is_local_directory then "Local directory" else o.name)

abbrev pub owner_connection : Option Owner → Option String
owner_connection none = none
owner_connection (some o) = some o.api_connection_id

module _ {Json D : Type 0} (contract : Contract Json) (source : Source Json)
    (store : Directory D) where
  -- `resolveBearer` and `decryptCredentials`.
  unfoldable pub resolve_bearer : Connection → List ErrorEntry → List ErrorEntry × Option String
  resolve_bearer connection errors =
      if connection.uses_oauth
      then (elim (source.get_access_token false) [
        | done token ↦ (errors, some token)
        | threw e ↦ (add errors (oauth_error e), none)
      ])
      else (elim source.decrypt [
        | done token ↦ (errors, some token)
        | threw e ↦ (
          add errors (entry decrypt_credentials (says "Stored credentials could not be decrypted")),
          none,
        )
      ])

  -- The fetch, with the token that was used in the end: a rejected OAuth token is refreshed once.
  unfoldable pub fetch_with_refresh : Connection → String → Outcome (String × Json)
  fetch_with_refresh connection token = elim (source.fetch_users_raw token) [
    | done raw ↦ done (token, raw)
    | threw e ↦
        (if connection.uses_oauth && is_unauthorized e
          then (elim (source.get_access_token true) [
            | threw e2 ↦ threw e2
            | done fresh ↦ elim (source.fetch_users_raw fresh) [
              | threw e3 ↦ threw e3
              | done raw ↦ done (fresh, raw)
            ]
          ])
          else threw e)
  ]

  unfoldable pub assert_users_array_within_limit : Json → Outcome (List Json)
  assert_users_array_within_limit body = elim (contract.as_array body) [
    | none ↦ threw (validation_error (says "Users response must be a JSON array"))
    | some rows ↦
        (if ltb source.max_users_per_run (length rows)
          then threw (validation_error (user_count_exceeds_limit source.max_users_per_run))
          else done rows)
  ]

  unfoldable pub usable_ids : List Json → List String
  usable_ids [] = []
  usable_ids (row ∷ rows) = elim (contract.id_value row) [
    | usable id ↦ id ∷ usable_ids rows
    | missing ↦ usable_ids rows
    | unusable ↦ usable_ids rows
  ]

  -- Whether the set of the ids is smaller than their list.
  unfoldable pub repeats : List String → Bool
  repeats [] = false
  repeats (id ∷ ids) = contains id ids || repeats ids

  unfoldable pub detect_duplicate_user_ids : List Json → Bool
  unfolding usable_ids repeats
  detect_duplicate_user_ids rows = repeats (usable_ids rows)

  -- The first `try` of `fetchAndMapUsers`.
  unfoldable pub read_users :
      Connection → String → List ErrorEntry → List ErrorEntry × Option (String × List Json)
  unfolding fetch_with_refresh assert_users_array_within_limit detect_duplicate_user_ids
  read_users connection token errors = elim (fetch_with_refresh connection token) [
    | threw e ↦ (push_fetch_users_error errors e, none)
    | done (used, raw) ↦ elim (assert_users_array_within_limit raw) [
      | threw e ↦ (push_fetch_users_error errors e, none)
      | done rows ↦ (
        if detect_duplicate_user_ids rows
            then add errors (
                entry parse_users
                  (says "Duplicate user ids in external API response; last row wins per id"))
            else errors,
        some (used, rows),
      )
    ]
  ]

  -- The rows by id, in the order of their first occurrence; a later row of the same id replaces it.
  unfoldable pub collect_rows :
      ℕ → List Json → Map String Json → List ErrorEntry → Map String Json × List ErrorEntry
  collect_rows index [] rows errors = (rows, errors)
  collect_rows index (row ∷ body) rows errors = elim (contract.id_value row) [
    | usable id ↦ collect_rows (index + 1) body (set id row rows) errors
    | missing ↦
        collect_rows (index + 1) body rows (add errors (entry parse_users (missing_user_id index)))
    | unusable ↦
        collect_rows (index + 1) body rows (add errors (entry parse_users (bad_user_id index)))
  ]

  record_username_collision : Connection → String → String → RunState D → RunState D
  record_username_collision connection external_id username s =
      let owner = store.owner_of s.directory username in
      record s {
        errors =
            add s.errors
              (record (entry username_collision (username_owned_by username (owner_label owner))) {
                external_user_id = some external_id;
                username = some username;
                owner_api_connection_id = owner_connection owner;
                owner_label = owner_label owner;
              });
        audit =
            s.audit
            ++ username_collided connection.id username external_id (owner_connection owner) ∷ [];
      }

  -- The answer to an upsert that threw: a collision may end the run.
  after_failed_upsert :
      Connection
      → CollisionPolicy
      → String
      → Exception
      → RunState D
      → RunState D × Outcome (Option (ProcessedUser Json))
  unfolding record_username_collision
  after_failed_upsert connection policy user_id (username_collision_error external_id username m)
        s =
      let counted = record s { counters = add_collision s.counters } in
      let recorded = record_username_collision connection external_id username counted in
      elim policy [ fail_run ↦ (recorded, threw strict_row_error) | skip ↦ (recorded, done none) ]
  after_failed_upsert connection policy user_id e s =
      (record s { errors = push_upsert_user_error s.errors user_id }, done none)

  unfoldable pub upsert_user :
      Connection
      → CollisionPolicy
      → String
      → Json
      → ExternalUser
      → RunState D
      → RunState D × Outcome (Option (ProcessedUser Json))
  unfolding after_failed_upsert
  upsert_user connection policy external_id row user s =
      let (directory, result) = store.upsert_user s.directory connection.id user in
      let written = record s { directory = directory } in
      elim result [
        | threw e ↦ after_failed_upsert connection policy user.id e written
        | done local_id ↦ (
          record written { counters = add_user written.counters },
          done (
              some (record {
                external_user_id = external_id;
                raw_row = row;
                local_user_id = some local_id;
              })),
        )
      ]

  -- One turn of the loop of phase 1: the user that goes on to the memberships, if any.
  unfoldable pub process_user :
      Connection
      → CollisionPolicy
      → Bool
      → String
      → Json
      → RunState D
      → RunState D × Outcome (Option (ProcessedUser Json))
  unfolding upsert_user
  process_user connection policy dry_run external_id row s =
      let seen = record s { counters = see_user external_id s.counters } in
      elim (contract.map_user_row row) [
        | threw e ↦ (
          add_error seen
              (record (entry parse_users (row_message e)) { external_user_id = some external_id }),
          if contract.fails_on_row_error then threw strict_row_error else done none,
        )
        | done user ↦
            (if dry_run
              then (
                record seen { counters = add_user seen.counters },
                done (
                    some (record {
                      external_user_id = external_id;
                      raw_row = row;
                      local_user_id = none;
                    })),
              )
              else upsert_user connection policy external_id row user seen)
      ]

  abbrev pub keep_processed :
      Option (ProcessedUser Json)
      → Outcome (List (ProcessedUser Json))
      → Outcome (List (ProcessedUser Json))
  keep_processed p (threw e) = threw e
  keep_processed none (done rest) = done rest
  keep_processed (some p) (done rest) = done (p ∷ rest)

  unfoldable pub process_users :
      Connection
      → CollisionPolicy
      → Bool
      → Map String Json
      → RunState D
      → RunState D × Outcome (List (ProcessedUser Json))
  unfolding process_user
  process_users connection policy dry_run [] s = (s, done [])
  process_users connection policy dry_run ((external_id, row) ∷ rows) s =
      let (turned, result) = process_user connection policy dry_run external_id row s in
      elim result [
        | threw e ↦ (turned, threw e)
        | done p ↦
            (let (after, rest) = process_users connection policy dry_run rows turned in
              (after, keep_processed p rest))
      ]

  -- The users that were gone through, with the token for their memberships.
  unfoldable pub with_token :
      String
      → RunState D × Outcome (List (ProcessedUser Json))
      → RunState D × Outcome (Option (List (ProcessedUser Json) × String))
  with_token token (s, threw e) = (s, threw e)
  with_token token (s, done processed) = (s, done (some (processed, token)))

  -- What follows the fetch: `none` ends the run as failed.
  unfoldable pub map_users :
      Connection
      → CollisionPolicy
      → Bool
      → String
      → List Json
      → RunState D
      → RunState D × Outcome (Option (List (ProcessedUser Json) × String))
  unfolding process_users with_token
  map_users connection policy dry_run token body s =
      let (rows, errors) = collect_rows 0 body [] s.errors in
      let collected = record s { errors = errors } in
      if ltb 0 (length body) && length rows == 0
      then (add_error collected (entry parse_users (none_has_user_id (length body))), done none)
      else with_token token (process_users connection policy dry_run rows collected)

  -- What follows the bearer token.
  unfoldable pub fetch_with_bearer :
      Connection
      → CollisionPolicy
      → Bool
      → RunState D
      → Option String
      → RunState D × Outcome (Option (List (ProcessedUser Json) × String))
  unfolding read_users map_users
  fetch_with_bearer connection global dry_run s none = (s, done none)
  fetch_with_bearer connection global dry_run s (some token) =
      let (errors, users) = read_users connection token s.errors in
      let read = record s { errors = errors } in
      elim users [
        | none ↦ (read, done none)
        | some (used, body) ↦
            map_users connection (policy_of connection.username_collision_policy global) dry_run
              used body read
      ]

  unfoldable pub fetch_and_map_users :
      Connection
      → CollisionPolicy
      → Bool
      → RunState D
      → RunState D × Outcome (Option (List (ProcessedUser Json) × String))
  unfolding fetch_with_bearer
  fetch_and_map_users connection global dry_run s =
      let (errors, bearer) = resolve_bearer connection s.errors in
      fetch_with_bearer connection global dry_run (record s { errors = errors }) bearer
