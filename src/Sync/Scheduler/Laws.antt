-- ===== src/Sync/Scheduler/Laws.antt =====
-- What the scheduler does with failures, and with connections that look busy.
use nest_id_p.Base.{
  ℕ, ◌+◌, ◌<◌, ◌≡◌, inl, inr, refl, ap, ◌∙◌, String, Bool, true, false, none, some, List, [], ◌∷◌,
  arith, leb, length, Bool-cases,
}
use nest_id_p.Base.Eq.{nat_eq, string_eq}
use nest_id_p.Base.Maps.{get}
use nest_id_p.Sync.Errors.{Message, Outcome}
use nest_id_p.Sync.Log.{TriggerSource, get_open_running_log}
use nest_id_p.Sync.Directory.{Connection, World, in_progress, record_safe, scheduled_run_skipped}
use nest_id_p.Sync.Run.{TriggerSyncResponse, is_sync_in_progress}
use nest_id_p.Sync.Run.Guard.{is_sync_in_progress-orphaned, get-update_connection}
use nest_id_p.Sync.Scheduler.{
  SchedulerSettings, Scheduled, NextRun, process_due_connection, handle_scheduled_failure,
  failed_run, reaches,
}

module _ {D : Type 0} (settings : SchedulerSettings) (compute_next : Connection → ℕ → NextRun)
    (trigger_sync : World D
      → String
      → Bool
      → TriggerSource
      → ℕ
      → World D × Outcome TriggerSyncResponse) where
  -- The same connection found due at one time after the other.
  pub attempts : Scheduled D → Connection → List ℕ → Scheduled D
  attempts s c [] = s
  attempts s c (now ∷ later) =
      attempts (process_due_connection settings compute_next trigger_sync s c now) c later

  process_due_connection-busy :
      (s : Scheduled D) (c : Connection) (now : ℕ)
      → is_sync_in_progress settings.stale_minutes s.world c.id now ≡ true
      → process_due_connection settings compute_next trigger_sync s c now
        ≡ record s { world = record_safe s.world (scheduled_run_skipped c.id) }
  unfolding process_due_connection
  process_due_connection-busy s c now busy = rw (busy, process_due_connection) refl

  -- A connection whose status says that a run is in progress, with no open log, as a crash between
  -- the end of its log and the update of its status leaves it, is skipped at every attempt: no run is
  -- started, and its row and the logs stay as they are.
  pub attempts-orphaned :
      (s : Scheduled D) (c : Connection) (times : List ℕ)
      → get c.id s.world.connections ≡ some c
      → c.last_sync_status ≡ in_progress
      → get_open_running_log s.world.logs c.id ≡ none
      → ((attempts s c times).world.connections ≡ s.world.connections)
        × ((attempts s c times).world.logs ≡ s.world.logs)
        × ((attempts s c times).world.directory ≡ s.world.directory)
  unfolding attempts
  attempts-orphaned s c [] e i o = (refl, refl, refl)
  attempts-orphaned s c (now ∷ later) e i o =
      rw
        (
          process_due_connection-busy s c now
              (is_sync_in_progress-orphaned settings.stale_minutes s.world c.id c now e i o).0,
          attempts,
        )
        (attempts-orphaned (record s { world = record_safe s.world (scheduled_run_skipped c.id) }) c
          later e i o)

module _ {D : Type 0} (threshold : ℕ) (c : Connection) where
  -- Failed runs of a connection, one after the other, each with its time.
  pub fail_each : Scheduled D → List (ℕ × Message) → Scheduled D
  fail_each s [] = s
  fail_each s ((now, message) ∷ failures) =
      fail_each (handle_scheduled_failure threshold s c now message none) failures

  get-handle_scheduled_failure :
      (s : Scheduled D) (row : Connection) (now : ℕ) (message : Message)
      → get c.id s.world.connections ≡ some row
      → get c.id (handle_scheduled_failure threshold s c now message none).world.connections
        ≡ some (
            failed_run
              (row.schedule_consecutive_failures + 1)
              (reaches threshold (row.schedule_consecutive_failures + 1))
              message
              now
              row)
  unfolding handle_scheduled_failure
  get-handle_scheduled_failure s row now message e =
      let failures = row.schedule_consecutive_failures + 1 in
      elim (Bool-cases (reaches threshold failures)) [
        | inl h ↦
            rw (e, h)
              (get-update_connection s.world c.id (failed_run failures true message now) row e)
        | inr h ↦
            rw (e, h)
              (get-update_connection s.world c.id (failed_run failures false message now) row e)
      ]

  -- Where the threshold is not 0, and a schedule is paused exactly if its failures have reached the
  -- threshold, a series of failed runs adds its length to the failures in the row, and the schedule
  -- is paused after it exactly if their sum has reached the threshold.
  pub get-fail_each :
      (failures : List (ℕ × Message)) (s : Scheduled D) (row : Connection)
      → 0 < threshold
      → get c.id s.world.connections ≡ some row
      → row.schedule_paused ≡ leb threshold row.schedule_consecutive_failures
      → (last : Connection) × (get c.id (fail_each s failures).world.connections ≡ some last)
        × (last.schedule_consecutive_failures ≡ row.schedule_consecutive_failures + length failures)
        × (last.schedule_paused
            ≡ leb threshold (row.schedule_consecutive_failures + length failures))
  unfolding fail_each
  get-fail_each [] s row t e p = (row, e, omega arith, p ∙ ap (leb threshold) (omega arith))
  get-fail_each ((now, message) ∷ failures) s row t e p =
      let paused = reaches threshold (row.schedule_consecutive_failures + 1) in
      let next_row = failed_run (row.schedule_consecutive_failures + 1) paused message now row in
      let (last, f, n, q) =
        get-fail_each failures (handle_scheduled_failure threshold s c now message none) next_row t
          (get-handle_scheduled_failure s row now message e) (ground (arith, p)) in
      (last, f, omega (arith, n), q ∙ ap (leb threshold) (omega arith))
