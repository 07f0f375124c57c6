-- ===== src/Sync/Run.antt =====
-- apps/api/src/sync/services/sync.service.ts: a whole run, from the claim of the connection to the
-- log that it leaves. `stale_minutes` is the age from which an open run is taken to be dead; the
-- clock is read at the start and at the end.
pub mod Ends
pub mod Laws
pub mod Guard
pub mod Preserves
pub mod Sweep
use nest_id_p.Base.{
  ℕ, zero, suc, ◌+◌, ◌-◌, ◌*◌, ◌^◌, ◌≤◌, ◌<◌, ◌≡◌, ◌≢◌, ◌↔◌, ◌⊎◌, inl, inr, refl, sym, ap, ◌∙◌, min,
  max, String, Bool, true, false, not, ◌&&◌, ◌||◌, Option, none, some, List, [], ◌∷◌, ◌++◌, map,
  arith, leb, ltb, nat_beq, if◌then◌else◌, length, take, keep, All, Bool-cases, Option-cases,
}
use nest_id_p.Base.Eq.{Eq, ◌==◌, nat_eq, string_eq, contains, beq_refl, beq-false}
use nest_id_p.Base.Maps.{Map, get, set, delete, retain}
use nest_id_p.Base.Text.{Text, codes}
use nest_id_p.Sync.Errors.{
  Kind, group, role, Message, says, Exception, not_found_error, bad_request_error, conflict_error,
  strict_row_error, Outcome, done, threw, ErrorEntry, entry, add, concurrency, dry_run_summary,
  internal, message_of,
}
use nest_id_p.Sync.Counters.{
  SyncCounters, new_counters, no_counts, should_skip_orphan_deletion, set_deactivated,
  to_counter_snapshot,
}
use nest_id_p.Sync.Log.{
  Logs, SyncLog, SyncLogStatus, running, TriggerSource, create_running_log, finish_log, finished,
  get_open_running_log,
}
use nest_id_p.Sync.Directory.{
  Connection, Contract, Source, Directory, World, update_connection, record_safe, LastSyncStatus,
  never, in_progress, succeeded, CollisionPolicy, SyncAudit, sync_completed, sync_failed,
}
use nest_id_p.Sync.Users.{RunState, ProcessedUser, fetch_and_map_users}
use nest_id_p.Sync.Memberships.{apply_user_memberships}

abbrev pub is_in_progress : LastSyncStatus → Bool
is_in_progress in_progress = true
is_in_progress _ = false

-- `now - startedAt > staleMinutes * 60_000`.
unfoldable pub is_stale_run : ℕ → SyncLog → ℕ → Bool
is_stale_run stale_minutes log now = ltb (log.started_at + stale_minutes * 60_000) now

abbrev pub interrupted : List ErrorEntry
interrupted = entry concurrency (says "Previous sync run interrupted or timed out") ∷ []

abbrev pub mark_failed : Connection → Connection
mark_failed c = record c { last_sync_status = LastSyncStatus.failed }

-- What a run answers: the finished log, and the connection row as it was last written.
pub record TriggerSyncResponse : Type 0 where
  pub sync_log : SyncLog
  pub connection : Connection

unfoldable pub is_real_sync_in_progress : ℕ → Logs → Connection → ℕ → Bool
is_real_sync_in_progress stale_minutes logs connection now =
    elim (get_open_running_log logs connection.id) [
      | some log ↦ not (is_stale_run stale_minutes log now)
      | none ↦ is_in_progress connection.last_sync_status
    ]

module _ {D : Type 0} (stale_minutes : ℕ) where
  unfoldable pub is_sync_in_progress : World D → String → ℕ → Bool
  is_sync_in_progress w connection_id now = elim (get connection_id w.connections) [
    | none ↦ false
    | some connection ↦ is_real_sync_in_progress stale_minutes w.logs connection now
  ]

  -- An open run that is stale is closed as failed; one that is not refuses the new run.
  unfoldable pub assert_real_sync_not_in_progress :
      World D → Connection → ℕ → World D × Outcome {0} Unit
  assert_real_sync_not_in_progress w connection now =
      elim (get_open_running_log w.logs connection.id) [
        | none ↦ (
          if is_in_progress connection.last_sync_status
              then update_connection w connection.id mark_failed
              else w,
          done tt,
        )
        | some log ↦
            (if is_stale_run stale_minutes log now
              then (
                update_connection
                    (record w {
                      logs =
                          finish_log w.logs log.id SyncLogStatus.failed no_counts (some interrupted)
                            now;
                    })
                    connection.id mark_failed,
                done tt,
              )
              else (
                w,
                threw (conflict_error (says "Sync already in progress for this connection")),
              ))
      ]

  -- The guard of a run: dry runs do not pass through it.
  guarded : World D → Connection → Bool → ℕ → World D × Outcome {0} Unit
  guarded w connection dry_run now =
      if dry_run then (w, done tt) else assert_real_sync_not_in_progress w connection now

  -- The claim, once the guard has answered: a log, and the status of the connection.
  begin_checked :
      String
      → Connection
      → Bool
      → TriggerSource
      → ℕ
      → World D × Outcome {0} Unit
      → World D × Outcome (Connection × SyncLog)
  begin_checked connection_id connection dry_run trigger_source now (checked, threw e) =
      (checked, threw e)
  begin_checked connection_id connection dry_run trigger_source now (checked, done u) =
      let (logs, log) = create_running_log checked.logs connection_id trigger_source now in
      let claimed = record checked { logs = logs } in
      (
        if dry_run
            then claimed
            else update_connection claimed connection_id
                (λ c. record c { last_sync_status = in_progress }),
        done (connection, log),
      )

  -- `resolved` is what the contract and the outbound proxy of the connection resolve to.
  unfoldable pub begin_run :
      Outcome {0} Unit
      → World D
      → String
      → Bool
      → TriggerSource
      → ℕ
      → World D × Outcome (Connection × SyncLog)
  unfolding guarded begin_checked
  begin_run resolved w connection_id dry_run trigger_source now =
      elim (get connection_id w.connections) [
        | none ↦ (w, threw (not_found_error (says "API connection not found")))
        | some connection ↦
            (if connection.is_local_directory
              then (w, threw (bad_request_error (says "Local directory is not syncable")))
              else (elim resolved [
                | threw e ↦ (w, threw e)
                | done u ↦
                    begin_checked connection_id connection dry_run trigger_source now
                      (guarded w connection dry_run now)
              ]))
      ]

module _ {Json D : Type 0} (contract : Contract Json) (source : Source Json)
    (store : Directory D) where
  unfoldable pub delete_kind : String → Kind → RunState D → RunState D × Outcome {0} Unit
  delete_kind connection_id kind s =
      if should_skip_orphan_deletion kind s.counters
      then (s, done tt)
      else (let (directory, result) =
            store.delete_orphans s.directory kind connection_id (s.counters.seen kind) in
          let written = record s { directory = directory } in
          elim result [
            | threw e ↦ (written, threw e)
            | done n ↦
                (record written { counters = set_deactivated kind n written.counters }, done tt)
          ])

  -- Phase C.
  unfoldable pub deactivate_orphans : String → Bool → RunState D → RunState D × Outcome {0} Unit
  unfolding delete_kind
  deactivate_orphans connection_id dry_run s =
      if dry_run
      then (s, done tt)
      else (let (directory, result) =
            store.deactivate_users_not_in s.directory connection_id s.counters.seen_users in
          let written = record s { directory = directory } in
          elim result [
            | threw e ↦ (written, threw e)
            | done n ↦
                (let (grouped, deleted) = delete_kind connection_id group written in
                  elim deleted [
                    | threw e ↦ (grouped, threw e)
                    | done u ↦ delete_kind connection_id role grouped
                  ])
          ])

  -- Phases B and C, and the note that a dry run ends with; true where the run succeeded.
  unfoldable pub after_users :
      Connection
      → Bool
      → List (ProcessedUser Json)
      → String
      → RunState D
      → RunState D × Outcome Bool
  unfolding deactivate_orphans
  after_users connection dry_run processed token s =
      let (applied, result) =
        apply_user_memberships contract source store connection dry_run processed token s in
      elim result [
        | threw e ↦ (applied, threw e)
        | done u ↦
            (let (swept, deleted) = deactivate_orphans connection.id dry_run applied in
              elim deleted [
                | threw e ↦ (swept, threw e)
                | done v ↦ (
                  if dry_run
                      then record swept {
                        errors = add swept.errors (
                            entry dry_run_summary
                              (says "Dry run completed; no identity rows were modified"));
                      }
                      else swept,
                  done true,
                )
              ])
      ]

  -- The body of the `try` of `triggerSync`.
  unfoldable pub phases :
      Connection → CollisionPolicy → Bool → RunState D → RunState D × Outcome Bool
  unfolding after_users
  phases connection global dry_run s =
      let (fetched, result) =
        fetch_and_map_users contract source store connection global dry_run s in
      elim result [
        | threw e ↦ (fetched, threw e)
        | done none ↦ (fetched, done false)
        | done (some (processed, token)) ↦ after_users connection dry_run processed token fetched
      ]

  -- A strict row has described itself before; any other exception gets an entry.
  abbrev pub with_internal : List ErrorEntry → Exception → List ErrorEntry
  with_internal errors strict_row_error = errors
  with_internal errors e = add errors (entry internal (message_of e))

  -- Its `catch`: the state to finalise, and whether the run succeeded.
  abbrev pub caught : RunState D → Outcome Bool → RunState D × Bool
  caught s (done ok) = (s, ok)
  caught s (threw e) = (record s { errors = with_internal s.errors e }, false)

  abbrev pub status_of : Bool → SyncLogStatus
  status_of true = SyncLogStatus.success
  status_of false = SyncLogStatus.failed

  -- What a real run writes to its connection; a success also clears what failed schedules left.
  abbrev pub concluded : Bool → Bool → SyncCounters → ℕ → Connection → Connection
  concluded true clear_auto_pause counters now c = record c {
    last_sync_at = some now;
    last_sync_status = succeeded;
    last_collision_count = counters.counts.users_skipped_collision;
    schedule_consecutive_failures = 0;
    schedule_auto_paused_at = none;
    schedule_last_error = none;
    schedule_paused = if clear_auto_pause then false else c.schedule_paused;
  }
  concluded false clear_auto_pause counters now c = record c {
    last_sync_status = LastSyncStatus.failed;
    last_collision_count = counters.counts.users_skipped_collision;
  }

  abbrev pub was_auto_paused : Connection → Bool
  was_auto_paused c = elim c.schedule_auto_paused_at [ none ↦ false | some t ↦ true ]

  abbrev pub finish_event : Bool → ℕ → SyncCounters → SyncAudit
  finish_event true id c = sync_completed id c.counts.users_synced c.counts.users_skipped_collision
  finish_event false id c = sync_failed id c.counts.users_synced c.counts.users_skipped_collision

  unfoldable pub finalize_run :
      Bool → Connection → SyncLog → Bool → RunState D → World D → ℕ → World D × TriggerSyncResponse
  finalize_run ok connection_before log dry_run s w now =
      let logs =
        finish_log w.logs log.id (status_of ok) (to_counter_snapshot s.counters) (some s.errors)
          now in
      let done_log =
        finished (status_of ok) (to_counter_snapshot s.counters) (some s.errors) now log in
      let change = concluded ok (was_auto_paused connection_before) s.counters now in
      let after : World D = record w {
        directory = s.directory;
        logs = logs;
        audit = s.audit ++ finish_event ok log.id s.counters ∷ [];
      } in
      if dry_run
      then (after, record { sync_log = done_log; connection = connection_before })
      else (let written = update_connection after connection_before.id change in
          (
            written,
            record {
              sync_log = done_log;
              connection = elim (get connection_before.id written.connections) [
                | some c ↦ c
                | none ↦ connection_before
              ];
            },
          ))

  pub trigger_sync :
      ℕ
      → Outcome {0} Unit
      → CollisionPolicy
      → World D
      → String
      → Bool
      → TriggerSource
      → ℕ
      → ℕ
      → World D × Outcome TriggerSyncResponse
  unfolding phases
  trigger_sync stale_minutes resolved global w connection_id dry_run trigger_source now later =
      let (begun, result) =
        begin_run stale_minutes resolved w connection_id dry_run trigger_source now in
      elim result [
        | threw e ↦ (begun, threw e)
        | done (connection, log) ↦
            (let start : RunState D = record {
              directory = begun.directory;
              counters = new_counters;
              errors = [];
              audit = begun.audit;
            } in
              let (ended, outcome) = phases connection global dry_run start in
              let (s, ok) = caught ended outcome in
              let (after, response) = finalize_run ok connection log dry_run s begun later in
              (after, done response))
      ]
