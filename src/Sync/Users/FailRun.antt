-- ===== src/Sync/Users/FailRun.antt =====
-- Phase A under the policy that fails the run on a collision: where it goes through, it has skipped
-- nobody over one.
use nest_id_p.Base.{
  ℕ, ◌≡◌, inl, inr, refl, ◌∙◌, String, Bool, Option, none, some, List, [], ◌∷◌, arith, Bool-cases,
  Option-cases, ltb, length, ◌&&◌,
}
use nest_id_p.Base.Eq.{nat_eq, string_eq, ◌==◌}
use nest_id_p.Base.Maps.{Map}
use nest_id_p.Sync.Errors.{Exception, Outcome, done, threw, Outcome-cases}
use nest_id_p.Sync.Counters.{see_user, add_user}
use nest_id_p.Sync.Directory.{
  Connection, Contract, Source, Directory, CollisionPolicy, fail_run, ExternalUser,
}
use nest_id_p.Sync.Users.{
  RunState, ProcessedUser, after_failed_upsert, upsert_user, process_user, process_users, map_users,
  with_token, fetch_with_bearer, fetch_and_map_users, policy_of, collect_rows, read_users,
  resolve_bearer, keep_processed,
}

module _ {Json D : Type 0} (contract : Contract Json) (source : Source Json)
    (store : Directory D) where
  -- The users that were skipped over a collision so far.
  abbrev pub skipped : RunState D → ℕ
  skipped s = s.counters.counts.users_skipped_collision

  after_failed_upsert-skipped :
      (connection : Connection) (user_id : String) (x : Exception) (s : RunState D)
      (o : Option (ProcessedUser Json))
      → (after_failed_upsert contract source store connection fail_run user_id x s).1 ≡ done o
      → skipped (after_failed_upsert contract source store connection fail_run user_id x s).0
        ≡ skipped s
  unfolding after_failed_upsert
  after_failed_upsert-skipped connection user_id x s o h = ground (arith, h)

  upsert_user-skipped :
      (connection : Connection) (external_id : String) (row : Json) (user : ExternalUser)
      (s : RunState D) (o : Option (ProcessedUser Json))
      → (upsert_user contract source store connection fail_run external_id row user s).1 ≡ done o
      → skipped (upsert_user contract source store connection fail_run external_id row user s).0
        ≡ skipped s
  unfolding upsert_user add_user
  upsert_user-skipped connection external_id row user s o h =
      let result = store.upsert_user s.directory connection.id user in
      let written : RunState D = record s { directory = result.0 } in
      elim (Outcome-cases result.1) [
        | inl (id, e) ↦ rw (e, upsert_user) refl
        | inr (x, e) ↦
            let z = rw (e, upsert_user) at h in
            rw (e, upsert_user) (after_failed_upsert-skipped connection user.id x written o z)
      ]

  process_user-skipped :
      (connection : Connection) (dry_run : Bool) (external_id : String) (row : Json)
      (s : RunState D) (o : Option (ProcessedUser Json))
      → (process_user contract source store connection fail_run dry_run external_id row s).1
        ≡ done o
      → skipped (process_user contract source store connection fail_run dry_run external_id row s).0
        ≡ skipped s
  unfolding process_user see_user add_user
  process_user-skipped connection dry_run external_id row s o h =
      let seen : RunState D = record s { counters = see_user external_id s.counters } in
      elim (Outcome-cases (contract.map_user_row row)) [
        | inr (x, e) ↦ rw (e, process_user) refl
        | inl (user, e) ↦ elim (Bool-cases dry_run) [
          | inl b ↦ rw (e, b, process_user) refl
          | inr b ↦
              let z = rw (e, b, process_user) at h in
              rw (e, b, process_user) (upsert_user-skipped connection external_id row user seen o z)
        ]
      ]

  kept-done :
      (p : Option (ProcessedUser Json)) (rest : Outcome (List (ProcessedUser Json)))
      (o : List (ProcessedUser Json))
      → keep_processed contract source store p rest ≡ done o
      → (ps : List (ProcessedUser Json)) × (rest ≡ done ps)
  kept-done none (done ps) o h = (ps, refl)
  kept-done (some p) (done ps) o h = (ps, refl)
  kept-done p (threw x) o h = ground (arith, h)

  process_users-skipped :
      (connection : Connection) (dry_run : Bool) (rows : Map String Json) (s : RunState D)
      (o : List (ProcessedUser Json))
      → (process_users contract source store connection fail_run dry_run rows s).1 ≡ done o
      → skipped (process_users contract source store connection fail_run dry_run rows s).0
        ≡ skipped s
  unfolding process_users
  process_users-skipped connection dry_run [] s o h = refl
  process_users-skipped connection dry_run ((external_id, row) ∷ rows) s o h =
      let first =
        process_user contract source store connection fail_run dry_run external_id row s in
      let rest = process_users contract source store connection fail_run dry_run rows first.0 in
      elim (Outcome-cases first.1) [
        | inr (x, e) ↦ let z = rw (e, process_users) at h in ground (arith, z)
        | inl (p, e) ↦
            let (ps, f) = kept-done p rest.1 o (rw (e, process_users) at h) in
            rw (e, process_users)
              (process_users-skipped connection dry_run rows first.0 ps f
                ∙ process_user-skipped connection dry_run external_id row s p e)
      ]

  with_token-skipped :
      (token : String) (r : RunState D × Outcome (List (ProcessedUser Json))) (n : ℕ)
      (o : Option (List (ProcessedUser Json) × String))
      → ((ps : List (ProcessedUser Json)) → r.1 ≡ done ps → skipped r.0 ≡ n)
      → (with_token contract source store token r).1 ≡ done o
      → skipped (with_token contract source store token r).0 ≡ n
  unfolding with_token
  with_token-skipped token (s, threw x) n o same h = ground (arith, h)
  with_token-skipped token (s, done ps) n o same h = same ps refl

  map_users-skipped :
      (connection : Connection) (dry_run : Bool) (token : String) (body : List Json)
      (s : RunState D) (o : Option (List (ProcessedUser Json) × String))
      → (map_users contract source store connection fail_run dry_run token body s).1 ≡ done o
      → skipped (map_users contract source store connection fail_run dry_run token body s).0
        ≡ skipped s
  unfolding map_users
  map_users-skipped connection dry_run token body s o h =
      let (rows, errors) = collect_rows contract source store 0 body [] s.errors in
      let collected : RunState D = record s { errors = errors } in
      let rest = process_users contract source store connection fail_run dry_run rows collected in
      elim (Bool-cases (ltb 0 (length body) && length rows == 0)) [
        | inl b ↦ rw (b, map_users) refl
        | inr b ↦
            let z = rw (b, map_users) at h in
            rw (b, map_users)
              (with_token-skipped token rest (skipped s) o
                (process_users-skipped connection dry_run rows collected) z)
      ]

  fetch_with_bearer-skipped :
      (connection : Connection) (global : CollisionPolicy) (dry_run : Bool) (s : RunState D)
      (bearer : Option String) (o : Option (List (ProcessedUser Json) × String))
      → policy_of connection.username_collision_policy global ≡ fail_run
      → (fetch_with_bearer contract source store connection global dry_run s bearer).1 ≡ done o
      → skipped (fetch_with_bearer contract source store connection global dry_run s bearer).0
        ≡ skipped s
  unfolding fetch_with_bearer
  fetch_with_bearer-skipped connection global dry_run s none o fails h = refl
  fetch_with_bearer-skipped connection global dry_run s (some token) o fails h =
      let (errors, users) = read_users contract source store connection token s.errors in
      let read : RunState D = record s { errors = errors } in
      elim (Option-cases users) [
        | inl e ↦ rw (e, fetch_with_bearer) refl
        | inr ((used, body), e) ↦
            let z = rw (e, fetch_with_bearer, fails) at h in
            rw (e, fetch_with_bearer, fails)
              (map_users-skipped connection dry_run used body read o z)
      ]

  -- Under the policy that fails the run, phase A skips nobody over a collision where it does not
  -- throw.
  pub fetch_and_map_users-skipped :
      (connection : Connection) (global : CollisionPolicy) (dry_run : Bool) (s : RunState D)
      (o : Option (List (ProcessedUser Json) × String))
      → policy_of connection.username_collision_policy global ≡ fail_run
      → (fetch_and_map_users contract source store connection global dry_run s).1 ≡ done o
      → skipped (fetch_and_map_users contract source store connection global dry_run s).0
        ≡ skipped s
  unfolding fetch_and_map_users
  fetch_and_map_users-skipped connection global dry_run s o fails h =
      let (errors, bearer) = resolve_bearer contract source store connection s.errors in
      fetch_with_bearer-skipped connection global dry_run (record s { errors = errors }) bearer o
        fails h
