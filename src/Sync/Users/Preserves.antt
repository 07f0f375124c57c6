-- ===== src/Sync/Users/Preserves.antt =====
-- What the operations of the identity store keep, phase A of a run keeps.
use nest_id_p.Sync.Counters.{see_user}
use nest_id_p.Base.{
  ◌≡◌, inl, inr, refl, sym, String, Bool, ◌&&◌, Option, none, some, List, [], ◌∷◌, ltb, length,
  Bool-cases, Option-cases,
}
use mathlib.Core.Path.{subst}
use nest_id_p.Base.Eq.{◌==◌, nat_eq, string_eq}
use nest_id_p.Base.Maps.{Map}
use nest_id_p.Sync.Errors.{Exception, Outcome, done, Outcome-cases, entry}
use nest_id_p.Sync.Directory.{
  Preserves, Connection, Contract, Source, Directory, CollisionPolicy, ExternalUser, skip, fail_run,
}
use nest_id_p.Base.{if-both}
use nest_id_p.Sync.Errors.{
  http_error, oauth_token_error, username_collision_error, name_collision_error, not_found_error,
  bad_request_error, conflict_error, strict_row_error, other_error, validation_error, parse_users,
  none_has_user_id,
}
use nest_id_p.Sync.Users.{
  upsert_user, process_user, process_users, map_users, fetch_with_bearer, fetch_and_map_users,
  after_failed_upsert, record_username_collision, add_error, RunState, collect_rows, read_users,
  resolve_bearer, see_user, ProcessedUser, policy_of, with_token,
}
use nest_id_p.Sync.Users.Laws.{with_token-directory}

module _ {Json D : Type 0} (contract : Contract Json) (source : Source Json) (store : Directory D)
    (connection : Connection) (P : D → Type 0) (keeps : Preserves store connection.id P) where
  after_failed_upsert-directory :
      (policy : CollisionPolicy) (user_id : String) (x : Exception) (s : RunState D)
      → (after_failed_upsert contract source store connection policy user_id x s).0.directory
        ≡ s.directory
  unfolding after_failed_upsert record_username_collision
  after_failed_upsert-directory skip user_id (username_collision_error i n m) s = refl
  after_failed_upsert-directory fail_run user_id (username_collision_error i n m) s = refl
  after_failed_upsert-directory policy user_id (validation_error m) s = refl
  after_failed_upsert-directory policy user_id (http_error m c) s = refl
  after_failed_upsert-directory policy user_id (oauth_token_error m c) s = refl
  after_failed_upsert-directory policy user_id (name_collision_error k m) s = refl
  after_failed_upsert-directory policy user_id (not_found_error m) s = refl
  after_failed_upsert-directory policy user_id (bad_request_error m) s = refl
  after_failed_upsert-directory policy user_id (conflict_error m) s = refl
  after_failed_upsert-directory policy user_id strict_row_error s = refl
  after_failed_upsert-directory policy user_id (other_error m) s = refl

  upsert_user-keeps :
      (policy : CollisionPolicy) (external_id : String) (row : Json) (u : ExternalUser)
      (s : RunState D)
      → P s.directory
      → P (upsert_user contract source store connection policy external_id row u s).0.directory
  unfolding upsert_user
  upsert_user-keeps policy external_id row u s p =
      let kept = keeps.by_user s.directory u p in
      elim (Outcome-cases (store.upsert_user s.directory connection.id u).1) [
        | inl (i, e) ↦ rw (e, upsert_user) kept
        | inr (x, e) ↦
            rw (e, upsert_user)
              (subst (λ (d : D). P d)
                (sym (
                  after_failed_upsert-directory policy u.id x
                    (record s { directory = (store.upsert_user s.directory connection.id u).0 })))
                kept)
      ]

  process_user-keeps :
      (policy : CollisionPolicy) (dry_run : Bool) (external_id : String) (row : Json)
      (s : RunState D)
      → P s.directory
      → P
          (process_user contract source store connection policy dry_run external_id row
            s).0.directory
  unfolding process_user
  process_user-keeps policy dry_run external_id row s p =
      elim (Outcome-cases (contract.map_user_row row)) [
        | inr (x, e) ↦ rw (e, process_user) p
        | inl (u, e) ↦ elim (Bool-cases dry_run) [
          | inl b ↦ rw (e, b, process_user) p
          | inr b ↦
              rw (e, b, process_user)
                (upsert_user-keeps policy external_id row u
                  (record s { counters = see_user external_id s.counters }) p)
        ]
      ]

  process_users-keeps :
      (policy : CollisionPolicy) (dry_run : Bool) (rows : Map String Json) (s : RunState D)
      → P s.directory
      → P (process_users contract source store connection policy dry_run rows s).0.directory
  unfolding process_users
  process_users-keeps policy dry_run [] s p = p
  process_users-keeps policy dry_run ((external_id, row) ∷ rows) s p =
      let first = process_user contract source store connection policy dry_run external_id row s in
      let kept = process_user-keeps policy dry_run external_id row s p in
      elim (Outcome-cases first.1) [
        | inl (u, e) ↦ rw (e, process_users) (process_users-keeps policy dry_run rows first.0 kept)
        | inr (x, e) ↦ rw (e, process_users) kept
      ]

  map_users-keeps :
      (policy : CollisionPolicy) (dry_run : Bool) (token : String) (body : List Json)
      (s : RunState D)
      → P s.directory
      → P (map_users contract source store connection policy dry_run token body s).0.directory
  unfolding map_users
  map_users-keeps policy dry_run token body s p =
      let (rows, errors) = collect_rows contract source store 0 body [] s.errors in
      let collected : RunState D = record s { errors = errors } in
      let processed =
        process_users contract source store connection policy dry_run rows collected in
      if-both
        (λ (r : RunState D × Outcome (Option (List (ProcessedUser Json) × String))).
          P r.0.directory)
        (ltb 0 (length body) && length rows == 0)
        (add_error collected (entry parse_users (none_has_user_id (length body))), done none)
        (with_token contract source store token processed) p
        (subst (λ (d : D). P d) (sym (with_token-directory contract source store token processed))
          (process_users-keeps policy dry_run rows collected p))

  fetch_with_bearer-keeps :
      (global : CollisionPolicy) (dry_run : Bool) (s : RunState D) (bearer : Option String)
      → P s.directory
      → P (fetch_with_bearer contract source store connection global dry_run s bearer).0.directory
  unfolding fetch_with_bearer
  fetch_with_bearer-keeps global dry_run s none p = p
  fetch_with_bearer-keeps global dry_run s (some token) p =
      elim (Option-cases (read_users contract source store connection token s.errors).1) [
        | inl e ↦ rw (e, fetch_with_bearer) p
        | inr ((used, body), e) ↦
            rw (e, fetch_with_bearer)
              (map_users-keeps (policy_of connection.username_collision_policy global) dry_run used
                body
                (record s {
                  errors = (read_users contract source store connection token s.errors).0;
                })
                p)
      ]

  -- Phase A.
  pub fetch_and_map_users-keeps :
      (global : CollisionPolicy) (dry_run : Bool) (s : RunState D)
      → P s.directory
      → P (fetch_and_map_users contract source store connection global dry_run s).0.directory
  unfolding fetch_and_map_users
  fetch_and_map_users-keeps global dry_run s p =
      let (errors, bearer) = resolve_bearer contract source store connection s.errors in
      fetch_with_bearer-keeps global dry_run (record s { errors = errors }) bearer p
