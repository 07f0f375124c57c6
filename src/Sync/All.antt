-- ===== src/Sync/All.antt =====
-- apps/api/src/sync/services/sync.service.ts, syncAll: a run of every source that takes part. The
-- table lists the connections in the order of their creation, and the runs are one after the other
-- in that order, as they are at the concurrency 1. The run is the argument `trigger_sync`.
pub mod Counts
use nest_id_p.Base.{
  ℕ, zero, suc, ◌+◌, ◌-◌, ◌*◌, ◌^◌, ◌≤◌, ◌<◌, ◌≡◌, ◌≢◌, ◌↔◌, ◌⊎◌, inl, inr, refl, sym, ap, ◌∙◌, min,
  max, String, Bool, true, false, not, ◌&&◌, ◌||◌, Option, none, some, List, [], ◌∷◌, ◌++◌, map,
  arith, leb, ltb, nat_beq, if◌then◌else◌, length, take, keep, All, Bool-cases, Option-cases,
}
use nest_id_p.Base.Eq.{Eq, ◌==◌, nat_eq, string_eq, contains, beq_refl, beq-false}
use nest_id_p.Base.Maps.{Map, get, set, delete, retain}
use nest_id_p.Base.Text.{Text, codes}
use nest_id_p.Sync.Errors.{Message, Exception, conflict_error, Outcome, done, threw, message_of}
use nest_id_p.Sync.Log.{SyncLog, TriggerSource, manual_all}
use nest_id_p.Sync.Directory.{
  Connection, World, record_safe, CollisionPolicy, skip, fail_run, sync_all_triggered,
}
use nest_id_p.Sync.Run.{is_sync_in_progress, TriggerSyncResponse}
use nest_id_p.Sync.Scheduler.{has_failed}

pub data SyncAllStatus : Type 0 where
  succeeded failed skipped_in_progress excluded : SyncAllStatus

pub record ConnectionResult : Type 0 where
  pub connection_id : String
  pub name : String
  pub status : SyncAllStatus
  pub users_synced : ℕ
  pub groups_synced : ℕ
  pub roles_synced : ℕ
  pub users_skipped_collision : ℕ
  pub message : Option Message

pub record Totals : Type 0 where
  pub connections : ℕ
  pub succeeded : ℕ
  pub failed : ℕ
  pub skipped_in_progress : ℕ
  pub excluded : ℕ
  pub users_synced : ℕ
  pub users_skipped_collision : ℕ

-- A result without counts: `skippedResult`, `excludedResult` and that of an exception.
abbrev pub empty_result : SyncAllStatus → Option Message → Connection → ConnectionResult
empty_result status message c = record {
  connection_id = c.id;
  name = c.name;
  status = status;
  users_synced = 0;
  groups_synced = 0;
  roles_synced = 0;
  users_skipped_collision = 0;
  message = message;
}

-- The result of a run that answered a log.
abbrev pub log_result : Connection → SyncLog → ConnectionResult
log_result c log = record {
  connection_id = c.id;
  name = c.name;
  status = if has_failed log.status then SyncAllStatus.failed else SyncAllStatus.succeeded;
  users_synced = log.counts.users_synced;
  groups_synced = log.counts.groups_synced;
  roles_synced = log.counts.roles_synced;
  users_skipped_collision = log.counts.users_skipped_collision;
  message = none;
}

abbrev pub is_conflict : Exception → Bool
is_conflict (conflict_error m) = true
is_conflict e = false

-- A conflict is a run that began in the meantime.
unfoldable pub outcome_result : Connection → Outcome TriggerSyncResponse → ConnectionResult
outcome_result c (done response) = log_result c response.sync_log
outcome_result c (threw e) =
    if is_conflict e
    then empty_result SyncAllStatus.skipped_in_progress none c
    else empty_result SyncAllStatus.failed (some (message_of e)) c

abbrev pub own_policy : CollisionPolicy → Connection → Option String → CollisionPolicy
own_policy global c none = global
own_policy global c (some text) = if text == "fail_run" then fail_run else skip

abbrev pub fails_run : CollisionPolicy → Bool
fails_run fail_run = true
fails_run skip = false

unfoldable pub all_fail_run : CollisionPolicy → List Connection → Bool
all_fail_run global [] = true
all_fail_run global (c ∷ cs) =
    fails_run (own_policy global c c.username_collision_policy) && all_fail_run global cs

-- More than one run at a time only where no source skips collisions.
unfoldable pub effective_sync_all_concurrency : ℕ → CollisionPolicy → List Connection → ℕ
effective_sync_all_concurrency configured global cs =
    if leb configured 1 then configured else if all_fail_run global cs then configured else 1

abbrev pub status_is : SyncAllStatus → ConnectionResult → Bool
status_is succeeded r = elim r.status [
  | succeeded ↦ true
  | failed ↦ false
  | skipped_in_progress ↦ false
  | excluded ↦ false
]
status_is failed r = elim r.status [
  | succeeded ↦ false
  | failed ↦ true
  | skipped_in_progress ↦ false
  | excluded ↦ false
]
status_is skipped_in_progress r = elim r.status [
  | succeeded ↦ false
  | failed ↦ false
  | skipped_in_progress ↦ true
  | excluded ↦ false
]
status_is excluded r = elim r.status [
  | succeeded ↦ false
  | failed ↦ false
  | skipped_in_progress ↦ false
  | excluded ↦ true
]

unfoldable pub sum_of : (ConnectionResult → ℕ) → List ConnectionResult → ℕ
sum_of f [] = 0
sum_of f (r ∷ rs) = f r + sum_of f rs

unfoldable pub totals_of : List ConnectionResult → List ConnectionResult → Totals
totals_of included excluded_results =
    let results = included ++ excluded_results in
    record {
      connections = length results;
      succeeded = length (keep (status_is SyncAllStatus.succeeded) results);
      failed = length (keep (status_is SyncAllStatus.failed) results);
      skipped_in_progress = length (keep (status_is SyncAllStatus.skipped_in_progress) results);
      excluded = length excluded_results;
      users_synced = sum_of (λ r. r.users_synced) results;
      users_skipped_collision = sum_of (λ r. r.users_skipped_collision) results;
    }

abbrev pub takes_part : Connection → Bool
takes_part c = not c.is_local_directory && c.include_in_sync_all

abbrev pub is_excluded : Connection → Bool
is_excluded c = not c.is_local_directory && not c.include_in_sync_all

module _ {D : Type 0} (stale_minutes : ℕ)
    (trigger_sync : World D
      → String
      → Bool
      → TriggerSource
      → ℕ
      → World D × Outcome TriggerSyncResponse) where
  -- The worker of the pool.
  sync_one : Bool → ℕ → World D → Connection → World D × ConnectionResult
  sync_one dry_run now w c =
      if not dry_run && is_sync_in_progress stale_minutes w c.id now
      then (w, empty_result SyncAllStatus.skipped_in_progress none c)
      else (let (after, outcome) = trigger_sync w c.id dry_run manual_all now in
          (after, outcome_result c outcome))

  sync_each : Bool → ℕ → World D → List Connection → World D × List ConnectionResult
  unfolding sync_one
  sync_each dry_run now w [] = (w, [])
  sync_each dry_run now w (c ∷ cs) =
      let (after, result) = sync_one dry_run now w c in
      let (last, results) = sync_each dry_run now after cs in (last, result ∷ results)

  pub sync_all : Bool → ℕ → World D → World D × (List ConnectionResult × Totals)
  unfolding sync_each
  sync_all dry_run now w =
      let rows = map (λ (e : String × Connection). e.1) w.connections in
      let (last, included) = sync_each dry_run now w (keep takes_part rows) in
      let excluded_results =
        map (empty_result SyncAllStatus.excluded none) (keep is_excluded rows) in
      let totals = totals_of included excluded_results in
      (
        record_safe last (sync_all_triggered totals.connections dry_run),
        (included ++ excluded_results, totals),
      )
