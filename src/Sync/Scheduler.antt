-- ===== src/Sync/Scheduler.antt =====
-- apps/api/src/sync/services/sync-scheduler.service.ts: the timer that starts the scheduled runs.
-- What `computeNextRunAt` answers, from the cron expression, the timezone and the jitter, is the
-- argument `compute_next`; the run itself is the argument `trigger_sync`, with the world it leaves.
-- `ticking` and the liveness gauge stand in a record of the scheduler's own.
pub mod Laws
use nest_id_p.Base.{
  ℕ, zero, suc, ◌+◌, ◌-◌, ◌*◌, ◌^◌, ◌≤◌, ◌<◌, ◌≡◌, ◌≢◌, ◌↔◌, ◌⊎◌, inl, inr, refl, sym, ap, ◌∙◌, min,
  max, String, Bool, true, false, not, ◌&&◌, ◌||◌, Option, none, some, List, [], ◌∷◌, ◌++◌, map,
  arith, leb, ltb, nat_beq, if◌then◌else◌, length, take, keep, All, Bool-cases, Option-cases,
}
use nest_id_p.Base.Eq.{Eq, ◌==◌, nat_eq, string_eq, contains, beq_refl, beq-false}
use nest_id_p.Base.Maps.{Map, get, set, delete, retain}
use nest_id_p.Base.Text.{Text, codes}
use nest_id_p.Sync.Errors.{
  and_more, Message, says, Exception, Outcome, done, threw, ErrorEntry, message_of, and_more,
}
use nest_id_p.Sync.Log.{SyncLog, SyncLogStatus, TriggerSource, scheduled}
use nest_id_p.Sync.Directory.{
  Connection, World, update_connection, record_safe, LastSyncStatus, succeeded, SyncAudit,
  scheduled_run_skipped, scheduled_run_started, scheduled_run_failed, schedule_auto_paused,
}
use nest_id_p.Sync.Run.{is_sync_in_progress, TriggerSyncResponse}

pub record SchedulerSettings : Type 0 where
  pub boot_overdue_grace_minutes : ℕ
  pub failure_autopause_threshold : ℕ
  pub stale_minutes : ℕ

-- What the notifier is told of a failed run.
pub record Failure : Type 0 where
  pub connection_id : String
  pub connection_name : String
  pub consecutive_failures : ℕ
  pub auto_paused : Bool
  pub message : Message
  pub sync_log_id : Option ℕ

pub record Scheduled (D : Type 0) : Type 0 where
  pub world : World D
  pub notified : List Failure

pub record Scheduler : Type 0 where
  pub ticking : Bool
  pub last_tick_at : Option ℕ
  pub last_processed : Option ℕ

-- What `computeNextRunAt` answers: a time, or an exception, which is a `CronScheduleError` or not.
pub data NextRun : Type 0 where
  next : ℕ → NextRun
  cron_schedule_error unexpected_error : Message → NextRun

abbrev pub has : {A : Type 0} → Option A → Bool
has none = false
has (some a) = true

-- The `where` of the boot, and of a tick without its time.
abbrev pub is_scheduled : Connection → Bool
is_scheduled c =
    c.schedule_enabled
    && (not c.schedule_paused && (not c.is_local_directory && has c.schedule_cron))

abbrev pub is_due : ℕ → Connection → Bool
is_due now c = is_scheduled c && (elim c.next_run_at [ none ↦ false | some t ↦ leb t now ])

-- `recordCronError`: only a cron error takes the connection off the schedule.
unfoldable pub record_cron_error : {D : Type 0} → World D → String → Bool → Message → World D
record_cron_error w id is_cron_error message = update_connection w id (λ c. record c {
  schedule_last_error = some message;
  next_run_at = if is_cron_error then none else c.next_run_at;
})

-- Whether the boot leaves the next run as it is: it is in the future, or late by no more than the
-- grace. `overdueMinutes(next, now) <= grace` is written in milliseconds.
abbrev pub survives_boot : ℕ → ℕ → Option ℕ → Bool
survives_boot grace_minutes now none = false
survives_boot grace_minutes now (some t) =
    ltb now t || (ltb 0 grace_minutes && leb (now - t) (grace_minutes * 60_000))

module _ {D : Type 0} (settings : SchedulerSettings) (compute_next : Connection → ℕ → NextRun) where
  reconcile : ℕ → World D → Connection → World D
  reconcile now w c =
      if survives_boot settings.boot_overdue_grace_minutes now c.next_run_at
      then w
      else (elim (compute_next c now) [
        | next t ↦
            update_connection w c.id
              (λ r. record r { next_run_at = some t; schedule_last_error = none })
        | cron_schedule_error m ↦ record_cron_error w c.id true m
        | unexpected_error m ↦ record_cron_error w c.id false m
      ])

  reconcile_each : ℕ → World D → List Connection → World D
  unfolding reconcile
  reconcile_each now w [] = w
  reconcile_each now w (c ∷ cs) = reconcile_each now (reconcile now w c) cs

  pub reconcile_on_boot : ℕ → World D → World D
  unfolding reconcile_each
  reconcile_on_boot now w =
      reconcile_each now w
        (keep is_scheduled (map (λ (e : String × Connection). e.1) w.connections))

abbrev pub failures_of : Option Connection → ℕ
failures_of none = 0
failures_of (some c) = c.schedule_consecutive_failures

abbrev pub reaches : ℕ → ℕ → Bool
reaches threshold failures = ltb 0 threshold && leb threshold failures

-- What a failed run writes to its connection.
abbrev pub failed_run : ℕ → Bool → Message → ℕ → Connection → Connection
failed_run failures auto_pause message now c = record c {
  schedule_consecutive_failures = failures;
  schedule_last_error = some message;
  last_scheduled_run_status = some LastSyncStatus.failed;
  schedule_paused = if auto_pause then true else c.schedule_paused;
  schedule_auto_paused_at = if auto_pause then some now else c.schedule_auto_paused_at;
}

unfoldable pub handle_scheduled_failure :
    {D : Type 0} → ℕ → Scheduled D → Connection → ℕ → Message → Option ℕ → Scheduled D
handle_scheduled_failure threshold s connection now message sync_log_id =
    let failures = failures_of (get connection.id s.world.connections) + 1 in
    let auto_pause = reaches threshold failures in
    let written =
      update_connection s.world connection.id (failed_run failures auto_pause message now) in
    let logged = record_safe written (scheduled_run_failed connection.id failures sync_log_id) in
    record {
      world =
          if auto_pause
          then record_safe logged (schedule_auto_paused connection.id failures threshold)
          else logged;
      notified =
          s.notified
          ++ record {
            connection_id = connection.id;
            connection_name = connection.name;
            consecutive_failures = failures;
            auto_paused = auto_pause;
            message = message;
            sync_log_id = sync_log_id;
          }
            ∷ [];
    }

-- `summarizeSyncErrors`.
abbrev pub summarize_sync_errors : Option (List ErrorEntry) → Message
summarize_sync_errors none = says "Scheduled sync failed"
summarize_sync_errors (some []) = says "Scheduled sync failed"
summarize_sync_errors (some (e ∷ [])) = e.message
summarize_sync_errors (some (e ∷ f ∷ errors)) = and_more e.message (length errors + 1)

abbrev pub has_failed : SyncLogStatus → Bool
has_failed SyncLogStatus.failed = true
has_failed _ = false

module _ {D : Type 0} (settings : SchedulerSettings) (compute_next : Connection → ℕ → NextRun)
    (trigger_sync : World D
      → String
      → Bool
      → TriggerSource
      → ℕ
      → World D × Outcome TriggerSyncResponse) where
  -- What follows the run of a due connection.
  after_run : Scheduled D → Connection → ℕ → World D × Outcome TriggerSyncResponse → Scheduled D
  after_run s connection now (w, threw e) =
      handle_scheduled_failure settings.failure_autopause_threshold (record s { world = w })
        connection now (message_of e) none
  after_run s connection now (w, done response) =
      if has_failed response.sync_log.status
      then handle_scheduled_failure settings.failure_autopause_threshold (record s { world = w })
          connection now (summarize_sync_errors response.sync_log.errors)
          (some response.sync_log.id)
      else record s {
        world =
            update_connection w connection.id
              (λ c. record c { last_scheduled_run_status = some succeeded });
      }

  -- A due connection that is not busy: the schedule advances before the run starts.
  run_due : Scheduled D → Connection → ℕ → NextRun → Scheduled D
  unfolding after_run
  run_due s connection now (cron_schedule_error m) = record s {
    world = record_cron_error s.world connection.id true m;
  }
  run_due s connection now (unexpected_error m) = record s {
    world = record_cron_error s.world connection.id false m;
  }
  run_due s connection now (next t) =
      let advanced =
        update_connection s.world connection.id
          (λ c. record c { next_run_at = some t; last_scheduled_run_at = some now }) in
      let started =
        record_safe advanced (scheduled_run_started connection.id connection.schedule_dry_run) in
      after_run s connection now
        (trigger_sync started connection.id connection.schedule_dry_run scheduled now)

  unfoldable pub process_due_connection : Scheduled D → Connection → ℕ → Scheduled D
  unfolding run_due
  process_due_connection s connection now =
      if is_sync_in_progress settings.stale_minutes s.world connection.id now
      then record s { world = record_safe s.world (scheduled_run_skipped connection.id) }
      else run_due s connection now (compute_next connection now)

  process_each : Scheduled D → ℕ → List Connection → Scheduled D
  process_each s now [] = s
  process_each s now (c ∷ cs) = process_each (process_due_connection s c now) now cs

  abbrev pub run_time : Connection → ℕ
  run_time c = elim c.next_run_at [ none ↦ 0 | some t ↦ t ]

  insert_by_time : Connection → List Connection → List Connection
  insert_by_time c [] = c ∷ []
  insert_by_time c (d ∷ ds) =
      let rest = insert_by_time c ds in
      if leb (run_time c) (run_time d) then c ∷ d ∷ ds else d ∷ rest

  -- `orderBy: { nextRunAt: 'asc' }`.
  sort_by_time : List Connection → List Connection
  unfolding insert_by_time
  sort_by_time [] = []
  sort_by_time (c ∷ cs) = insert_by_time c (sort_by_time cs)

  -- A tick that another one overlaps does nothing; `finished_at` is the clock at its end.
  pub run_tick : Scheduler → Scheduled D → ℕ → ℕ → Scheduler × Scheduled D
  unfolding process_each sort_by_time
  run_tick scheduler s now finished_at =
      if scheduler.ticking
      then (scheduler, s)
      else (let due =
            sort_by_time
              (keep (is_due now) (map (λ (e : String × Connection). e.1) s.world.connections)) in
          (
            record {
              ticking = false;
              last_tick_at = some finished_at;
              last_processed = some (length due);
            },
            process_each s now due,
          ))
