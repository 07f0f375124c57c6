-- ===== src/Sync/Users/Laws.antt =====
-- What phase A of a run does to the identity store.
use nest_id_p.Base.Tests.{if-both}
use nest_id_p.Base.{
  ◌⊎◌, ◌+◌, ◌<◌, lt→ltb, ◌≡◌, inl, inr, refl, ◌∙◌, String, true, ◌&&◌, Option, none, some, List, [],
  ◌∷◌, ltb, length, Option-cases, if-both, Bool, ℕ, arith, ◌+◌, Bool-cases,
}
use nest_id_p.Base.Eq.{◌==◌, nat_eq, string_eq}
use nest_id_p.Base.Maps.{Map}
use nest_id_p.Sync.Errors.{
  Outcome, done, threw, Outcome-cases, entry, parse_users, none_has_user_id, ErrorEntry, add,
  missing_user_id, bad_user_id,
}
use nest_id_p.Sync.Directory.{
  IdValue-cases, Connection, Contract, Source, Directory, CollisionPolicy,
}
use nest_id_p.Sync.Users.{
  assert_users_array_within_limit, fetch_with_refresh, RunState, ProcessedUser, process_user,
  process_users, map_users, fetch_and_map_users, collect_rows, read_users, resolve_bearer,
  add_error, fetch_with_bearer, with_token, policy_of, usable_ids,
}

module _ {Json D : Type 0} (contract : Contract Json) (source : Source Json)
    (store : Directory D) where
  process_user-dry :
      (connection : Connection) (policy : CollisionPolicy) (external_id : String) (row : Json)
      (s : RunState D)
      → (process_user contract source store connection policy true external_id row s).0.directory
        ≡ s.directory
  unfolding process_user
  process_user-dry connection policy external_id row s =
      elim (Outcome-cases (contract.map_user_row row)) [
        | inl (user, e) ↦ rw (e, process_user) refl
        | inr (x, e) ↦ rw (e, process_user) refl
      ]

  process_users-dry :
      (connection : Connection) (policy : CollisionPolicy) (rows : Map String Json) (s : RunState D)
      → (process_users contract source store connection policy true rows s).0.directory
        ≡ s.directory
  unfolding process_users
  process_users-dry connection policy [] s = refl
  process_users-dry connection policy ((external_id, row) ∷ rows) s =
      let first = process_user contract source store connection policy true external_id row s in
      let same = process_user-dry connection policy external_id row s in
      elim (Outcome-cases first.1) [
        | inl (p, e) ↦
            rw (e, process_users) (process_users-dry connection policy rows first.0 ∙ same)
        | inr (x, e) ↦ rw (e, process_users) same
      ]

  pub with_token-directory :
      (token : String) (r : RunState D × Outcome (List (ProcessedUser Json)))
      → (with_token contract source store token r).0.directory ≡ r.0.directory
  unfolding with_token
  with_token-directory token (s, threw e) = refl
  with_token-directory token (s, done ps) = refl

  map_users-dry :
      (connection : Connection) (policy : CollisionPolicy) (token : String) (body : List Json)
      (s : RunState D)
      → (map_users contract source store connection policy true token body s).0.directory
        ≡ s.directory
  unfolding map_users
  map_users-dry connection policy token body s =
      let (rows, errors) = collect_rows contract source store 0 body [] s.errors in
      let collected : RunState D = record s { errors = errors } in
      let processed = process_users contract source store connection policy true rows collected in
      if-both
        (λ (r : RunState D × Outcome (Option (List (ProcessedUser Json) × String))).
          r.0.directory ≡ s.directory)
        (ltb 0 (length body) && length rows == 0)
        (add_error collected (entry parse_users (none_has_user_id (length body))), done none)
        (with_token contract source store token processed) refl
        (with_token-directory token processed ∙ process_users-dry connection policy rows collected)

  fetch_with_bearer-dry :
      (connection : Connection) (global : CollisionPolicy) (s : RunState D) (bearer : Option String)
      → (fetch_with_bearer contract source store connection global true s bearer).0.directory
        ≡ s.directory
  unfolding fetch_with_bearer
  fetch_with_bearer-dry connection global s none = refl
  fetch_with_bearer-dry connection global s (some token) =
      elim (Option-cases (read_users contract source store connection token s.errors).1) [
        | inl e ↦ rw (e, fetch_with_bearer) refl
        | inr ((used, body), e) ↦
            rw (e, fetch_with_bearer)
              (map_users-dry connection (policy_of connection.username_collision_policy global) used
                body
                (record s {
                  errors = (read_users contract source store connection token s.errors).0;
                }))
      ]

  -- The fetch and the upserts of the users change nothing in the identity store on a dry run.
  pub fetch_and_map_users-dry :
      (connection : Connection) (global : CollisionPolicy) (s : RunState D)
      → (fetch_and_map_users contract source store connection global true s).0.directory
        ≡ s.directory
  unfolding fetch_and_map_users
  fetch_and_map_users-dry connection global s =
      let (errors, bearer) = resolve_bearer contract source store connection s.errors in
      fetch_with_bearer-dry connection global (record s { errors = errors }) bearer

  collect_rows-unusable :
      (index : ℕ) (body : List Json) (rows : Map String Json) (errors : List ErrorEntry)
      → usable_ids contract source store body ≡ []
      → (collect_rows contract source store index body rows errors).0 ≡ rows
  unfolding collect_rows usable_ids
  collect_rows-unusable index [] rows errors h = refl
  collect_rows-unusable index (row ∷ body) rows errors h =
      elim (IdValue-cases (contract.id_value row)) [
        | inl (id, e) ↦ let z = rw (e, usable_ids) at h in ground (arith, z)
        | inr (inl e) ↦
            rw (e, collect_rows)
              (collect_rows-unusable (index + 1) body rows
                (add errors (entry parse_users (missing_user_id index))) (rw (e, usable_ids) at h))
        | inr (inr e) ↦
            rw (e, collect_rows)
              (collect_rows-unusable (index + 1) body rows
                (add errors (entry parse_users (bad_user_id index))) (rw (e, usable_ids) at h))
      ]

  -- The fetch ends without rows, or with those of an answer.
  read_users-cases :
      (connection : Connection) (token : String) (errors : List ErrorEntry)
      → ((read_users contract source store connection token errors).1 ≡ none)
        ⊎ ((used : String) × (raw : Json) × (rows : List Json) × ((read_users contract source store
                connection token errors).1
              ≡ some (used, rows))
            × (contract.as_array raw ≡ some rows))
  unfolding read_users assert_users_array_within_limit
  read_users-cases connection token errors =
      elim (Outcome-cases (fetch_with_refresh contract source store connection token)) [
        | inr (x, e) ↦ rw (e, read_users) (inl refl)
        | inl ((used, raw), e) ↦ elim (Option-cases (contract.as_array raw)) [
          | inl a ↦ rw (e, read_users, a, assert_users_array_within_limit) (inl refl)
          | inr (rows, a) ↦ elim (Bool-cases (ltb source.max_users_per_run (length rows))) [
            | inl l ↦ rw (e, read_users, a, assert_users_array_within_limit, l) (inl refl)
            | inr l ↦
                inr (
                  used,
                  raw,
                  rows,
                  rw (e, read_users, a, assert_users_array_within_limit, l) refl,
                  a,
                )
          ]
        ]
      ]

  map_users-unusable :
      (connection : Connection) (policy : CollisionPolicy) (dry_run : Bool) (token : String)
      (body : List Json) (s : RunState D)
      → 0 < length body
      → usable_ids contract source store body ≡ []
      → ((map_users contract source store connection policy dry_run token body s).0.directory
          ≡ s.directory)
        × ((map_users contract source store connection policy dry_run token body s).1 ≡ done none)
  unfolding map_users
  map_users-unusable connection policy dry_run token body s t h =
      rw (collect_rows-unusable 0 body [] s.errors h, lt→ltb 0 (length body) t) (refl, refl)

  fetch_with_bearer-unusable :
      (connection : Connection) (global : CollisionPolicy) (dry_run : Bool) (s : RunState D)
      (bearer : Option String)
      → ((raw : Json) (rows : List Json)
          → contract.as_array raw ≡ some rows
          → (0 < length rows) × (usable_ids contract source store rows ≡ []))
      → ((fetch_with_bearer contract source store connection global dry_run s bearer).0.directory
          ≡ s.directory)
        × ((fetch_with_bearer contract source store connection global dry_run s bearer).1
            ≡ done none)
  unfolding fetch_with_bearer
  fetch_with_bearer-unusable connection global dry_run s none broken = (refl, refl)
  fetch_with_bearer-unusable connection global dry_run s (some token) broken =
      elim (read_users-cases connection token s.errors) [
        | inl e ↦ rw (e, fetch_with_bearer) (refl, refl)
        | inr (used, raw, rows, e, a) ↦
            let (some_rows, none_usable) = broken raw rows a in
            rw (e, fetch_with_bearer)
              (map_users-unusable connection (policy_of connection.username_collision_policy global)
                dry_run used rows
                (record s {
                  errors = (read_users contract source store connection token s.errors).0;
                })
                some_rows none_usable)
      ]

  -- Where the contract finds no usable user id in any answer, though every answer has rows, phase A
  -- answers nothing and writes nothing to the identity store.
  pub fetch_and_map_users-unusable :
      (connection : Connection) (global : CollisionPolicy) (dry_run : Bool) (s : RunState D)
      → ((raw : Json) (rows : List Json)
          → contract.as_array raw ≡ some rows
          → (0 < length rows) × (usable_ids contract source store rows ≡ []))
      → ((fetch_and_map_users contract source store connection global dry_run s).0.directory
          ≡ s.directory)
        × ((fetch_and_map_users contract source store connection global dry_run s).1 ≡ done none)
  unfolding fetch_and_map_users
  fetch_and_map_users-unusable connection global dry_run s broken =
      let (errors, bearer) = resolve_bearer contract source store connection s.errors in
      fetch_with_bearer-unusable connection global dry_run (record s { errors = errors }) bearer
        broken
