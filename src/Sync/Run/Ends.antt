-- ===== src/Sync/Run/Ends.antt =====
-- The claim of a run, and the log that its end closes.
use nest_id_p.Base.Tests.{if-false}
use nest_id_p.Base.{
  [], false, ℕ, ◌≡◌, ◌⊎◌, inl, inr, refl, sym, ap, ◌∙◌, String, Bool, true, false, Option, some,
  List, [], ◌∷◌, ◌++◌, Bool-cases, Option-cases, if-false,
}
use nest_id_p.Base.Eq.{nat_eq, string_eq, beq_refl}
use nest_id_p.Base.Maps.{get}
use nest_id_p.Sync.Errors.{Exception, Outcome, done, threw, Outcome-cases, ErrorEntry}
use nest_id_p.Sync.Counters.{SyncCounterSnapshot, to_counter_snapshot}
use mathlib.Core.Path.{subst}
use nest_id_p.Sync.Log.{
  is_running, update_row, find_row, Logs, SyncLog, SyncLogStatus, TriggerSource, create_running_log,
  finish_log, finished, get_log_by_id,
}
use nest_id_p.Sync.Directory.{Connection, Contract, Source, Directory, World}
use nest_id_p.Sync.Users.{RunState}
use nest_id_p.Sync.Directory.{update_connection, in_progress}
use nest_id_p.Sync.Run.{
  finish_event, concluded, was_auto_paused, status_of, begin_checked, begin_run, guarded,
  finalize_run, TriggerSyncResponse,
}

module _ {D : Type 0} where
  update_connection-keeps :
      (w : World D) (id : String) (change : Connection → Connection)
      → ((update_connection w id change).logs ≡ w.logs)
        × ((update_connection w id change).directory ≡ w.directory)
  unfolding update_connection
  update_connection-keeps w id change = elim (Option-cases (get id w.connections)) [
    | inl e ↦ rw (e, update_connection) (refl, refl)
    | inr (c, e) ↦ rw (e, update_connection) (refl, refl)
  ]

  -- The claim of a run is refused, or its log stands first.
  abbrev pub Claims : World D × Outcome (Connection × SyncLog) → Type 0
  Claims b =
      ((x : Exception) × (b.1 ≡ threw x))
      ⊎ ((c : Connection) × (log : SyncLog) × (rest : List SyncLog) × (b.1 ≡ done (c, log))
          × (b.0.logs.rows ≡ log ∷ rest))

  begin_checked-Claims :
      (stale_minutes : ℕ) (checked : World D) (result : Outcome {0} Unit) (id : String)
      (c : Connection) (dry_run : Bool) (src : TriggerSource) (now : ℕ)
      → Claims (begin_checked stale_minutes id c dry_run src now (checked, result))
  unfolding begin_checked create_running_log
  begin_checked-Claims stale_minutes checked (threw x) id c dry_run src now = inl (x, refl)
  begin_checked-Claims stale_minutes checked (done u) id c true src now = inr (c, _, _, refl, refl)
  begin_checked-Claims stale_minutes checked (done u) id c false src now = inr (
    c,
    (create_running_log checked.logs id src now).1,
    checked.logs.rows,
    refl,
    ap (λ (l : Logs). l.rows)
        (update_connection-keeps
          (record checked { logs = (create_running_log checked.logs id src now).0 }) id
          (λ c. record c { last_sync_status = in_progress })).0,
  )

  pub begin_run-Claims :
      (stale_minutes : ℕ) (resolved : Outcome {0} Unit) (w : World D) (id : String) (dry_run : Bool)
      (src : TriggerSource) (now : ℕ)
      → Claims (begin_run stale_minutes resolved w id dry_run src now)
  unfolding begin_run
  begin_run-Claims stale_minutes resolved w id dry_run src now =
      elim (Option-cases (get id w.connections)) [
        | inl e ↦ rw (e, begin_run) (inl (_, refl))
        | inr (c, e) ↦ elim (Bool-cases c.is_local_directory) [
          | inl l ↦ rw (e, l, begin_run) (inl (_, refl))
          | inr l ↦ elim (Outcome-cases resolved) [
            | inr (x, r) ↦ rw (e, l, r, begin_run) (inl (x, refl))
            | inl (u, r) ↦
                let (checked, result) = guarded stale_minutes w c dry_run now in
                rw (e, r, begin_run)
                  (subst (λ (b : World D × Outcome (Connection × SyncLog)). Claims b)
                    (sym (if-false c.is_local_directory _ _ l))
                    (begin_checked-Claims stale_minutes checked result id c dry_run src now))
          ]
        ]
      ]

-- The first row of the table, once it is finished, is found by its id.
get_log_by_id-finish_log :
    (logs : Logs) (log : SyncLog) (rest : List SyncLog) (status : SyncLogStatus)
    (counts : SyncCounterSnapshot) (errors : Option (List ErrorEntry)) (now : ℕ)
    → logs.rows ≡ log ∷ rest
    → get_log_by_id (finish_log logs log.id status counts errors now) log.id
      ≡ some (finished status counts errors now log)
unfolding get_log_by_id finish_log find_row update_row finished
get_log_by_id-finish_log logs log rest status counts errors now e =
    ap
      (λ (rows : List SyncLog).
        find_row log.id (update_row log.id (finished status counts errors now) rows))
      e
    ∙ rw (beq_refl log.id) (rw (beq_refl log.id) refl)

module _ {Json D : Type 0} (contract : Contract Json) (source : Source Json)
    (store : Directory D) where
  -- The log of a run that is finalised is closed, and stands in the table as it is answered.
  abbrev pub IsClosed : ℕ → World D × TriggerSyncResponse → Type 0
  IsClosed now f =
      (get_log_by_id f.0.logs f.1.sync_log.id ≡ some f.1.sync_log)
      × (f.1.sync_log.finished_at ≡ some now)
      × (is_running f.1.sync_log.status ≡ false)

  not_running : (ok : Bool) → is_running (status_of contract source store ok) ≡ false
  not_running true = refl
  not_running false = refl

  pub finalize_run-IsClosed :
      (ok : Bool) (c : Connection) (log : SyncLog) (rest : List SyncLog) (dry_run : Bool)
      (s : RunState D) (w : World D) (now : ℕ)
      → w.logs.rows ≡ log ∷ rest
      → IsClosed now (finalize_run contract source store ok c log dry_run s w now)
  unfolding finalize_run finished
  finalize_run-IsClosed ok c log rest true s w now e = (
    get_log_by_id-finish_log w.logs log rest (status_of contract source store ok)
        (to_counter_snapshot s.counters) (some s.errors) now e,
    refl,
    not_running ok,
  )
  finalize_run-IsClosed ok c log rest false s w now e =
      let after : World D = record w {
        directory = s.directory;
        logs =
            finish_log w.logs log.id (status_of contract source store ok)
              (to_counter_snapshot s.counters) (some s.errors) now;
        audit = s.audit ++ finish_event contract source store ok log.id s.counters ∷ [];
      } in
      let change =
        concluded contract source store ok (was_auto_paused contract source store c) s.counters
          now in
      (
        ap (λ (l : Logs). get_log_by_id l log.id) (update_connection-keeps after c.id change).0
            ∙ get_log_by_id-finish_log w.logs log rest (status_of contract source store ok)
                (to_counter_snapshot s.counters) (some s.errors) now e,
        refl,
        not_running ok,
      )

  pub finalize_run-id :
      (ok : Bool) (c : Connection) (log : SyncLog) (dry_run : Bool) (s : RunState D) (w : World D)
      (now : ℕ)
      → (finalize_run contract source store ok c log dry_run s w now).1.sync_log.id ≡ log.id
  unfolding finalize_run finished
  finalize_run-id ok c log true s w now = refl
  finalize_run-id ok c log false s w now = refl
