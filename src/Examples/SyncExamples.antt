-- ===== src/Examples/SyncExamples.antt =====
-- The synchronisation on a concrete source and store.
use nest_id_p.Base.{
  ◌+◌, ◌≤◌, ◌<◌, ◌≡◌, ◌⊎◌, refl, String, true, false, none, some, List, [], ◌∷◌, arith, leb, length,
  take, Bool, ℕ, ◌++◌, map,
}
use nest_id_p.Base.Eq.{nat_eq, string_eq}
use nest_id_p.Base.Maps.{get}
use nest_id_p.Sync.Errors.{
  group, says, Exception, done, threw, entry, internal, cap_sync_errors, conflict_error, Outcome,
  ErrorEntry, username_collision_error, truncated, append_sync_error,
}
use nest_id_p.Sync.Errors.Cap.{cap_sync_errors-bounded, stored}
use nest_id_p.Sync.Counters.{new_counters, add_once}
use nest_id_p.Sync.Counters.Laws.{CountsOnce, add_once-CountsOnce}
use nest_id_p.Sync.Log.{
  latest_where, manual, scheduled, get_log_by_id, get_open_running_log, is_running, SyncLog,
}
use nest_id_p.Sync.Users.{RunState, ProcessedUser, fetch_and_map_users}
use nest_id_p.Sync.Memberships.{apply_user_memberships, gather_memberships, gather_user}
use nest_id_p.Sync.Memberships.Orphans.{any_throws, should_skip-apply_user_memberships}
use nest_id_p.Sync.Counters.{should_skip_orphan_deletion}
use nest_id_p.Sync.All.{effective_sync_all_concurrency, all_fail_run, sync_all}
use nest_id_p.Sync.All.Counts.{effective_sync_all_concurrency-safe, sync_all-totals}
use nest_id_p.Base.{◌+◌}
use nest_id_p.Sync.Log.{TriggerSource}
use nest_id_p.Base.Maps.{set}
use nest_id_p.Base.{◌<◌, ◌||◌}
use nest_id_p.Sync.Errors.{other_error}
use nest_id_p.Sync.Directory.{
  missing, Connection, Contract, Source, Directory, World, never, in_progress, skip, usable,
  fail_run,
}
use nest_id_p.Sync.Run.{
  begin_run, assert_real_sync_not_in_progress, trigger_sync, TriggerSyncResponse,
}
use nest_id_p.Sync.Run.Guard.{begin_run-exclusive}
use nest_id_p.Sync.Run.Laws.{trigger_sync-dry, trigger_sync-logged}
use nest_id_p.Sync.Scheduler.{SchedulerSettings, Scheduled, next}
use nest_id_p.Sync.Scheduler.Laws.{attempts, attempts-orphaned, fail_each, get-fail_each}

-- A row is its id; a store is the list of the ids of the users it has.
abbrev pub contract : Contract String
contract = record {
  as_array = λ body. some (body ∷ []);
  id_value = λ row. usable row;
  map_user_row = λ row. done (record {
    id = row;
    username = row;
    email = none;
    display_name = none;
    password_hash = "h";
    password_hash_algorithm = "bcrypt";
    active = true;
  });
  map_entity_row = λ kind row. done (record { id = row; name = row });
  embedded = λ kind. true;
  embedded_value = λ kind row. none;
  embedded_cap = λ kind. none;
  fails_on_row_error = false;
}

abbrev pub source : Source String
source = record {
  get_access_token = λ force. done "token";
  decrypt = done "token";
  fetch_users_raw = λ token. done "alice";
  fetch_entities_raw = λ kind token id. done [];
  max_users_per_run = 10;
}

abbrev store : Directory (List String)
store = record {
  upsert_user = λ d id user. (user.id ∷ d, done user.id);
  upsert_entity = λ d kind id e. (d, done e.id);
  replace_user_entities = λ d kind id ids. (d, done tt);
  deactivate_users_not_in = λ d id ids. (ids, done 0);
  delete_orphans = λ d kind id ids. (d, done 0);
  owner_of = λ d name. none;
}

abbrev pub hr : Connection
hr = record {
  id = "hr";
  name = "HR";
  is_local_directory = false;
  uses_oauth = false;
  include_in_sync_all = true;
  username_collision_policy = none;
  last_sync_at = none;
  last_sync_status = never;
  last_collision_count = 0;
  schedule_enabled = true;
  schedule_paused = false;
  schedule_dry_run = false;
  schedule_cron = some "0 2 * * *";
  schedule_timezone = none;
  next_run_at = some 100;
  last_scheduled_run_at = none;
  last_scheduled_run_status = none;
  schedule_last_error = none;
  schedule_consecutive_failures = 0;
  schedule_auto_paused_at = none;
}

abbrev world : World (List String)
world = record {
  directory = "bob" ∷ [];
  connections = ("hr", hr) ∷ [];
  logs = record { rows = []; next_id = 7 };
  audit = [];
}

abbrev doubled : List ErrorEntry → List ErrorEntry
doubled errors = errors ++ errors

-- One hundred and twelve errors.
abbrev too_many : List ErrorEntry
too_many =
    let seven = map (entry internal) (map says ("a" ∷ "b" ∷ "c" ∷ "d" ∷ "e" ∷ "f" ∷ "g" ∷ [])) in
    doubled (doubled (doubled (doubled seven)))

cap_sync_errors-bounded_example :
    (length (stored (cap_sync_errors too_many)) ≤ 100)
    × (length too_many ≤ 100 → stored (cap_sync_errors too_many) ≡ too_many)
    × (100 < length too_many
        → stored (cap_sync_errors too_many)
          ≡ take 99 too_many ++ entry truncated (says "Additional errors truncated") ∷ [])
    × ((e : ErrorEntry)
        → 100 < length too_many
        → append_sync_error (stored (cap_sync_errors too_many)) e
          ≡ stored (cap_sync_errors too_many))
cap_sync_errors-bounded_example = cap_sync_errors-bounded too_many

add_once-CountsOnce_example : CountsOnce group (add_once group "staff" new_counters).0
add_once-CountsOnce_example = add_once-CountsOnce group group "staff" new_counters (tt, refl)

trigger_sync-dry_example :
    ((trigger_sync contract source store 60 (done tt) skip world "hr" true manual 5 9).0.directory
      ≡ "bob" ∷ [])
    × ((trigger_sync contract source store 60
          (done tt)
          skip
          world
          "hr"
          true
          manual
          5
          9).0.connections
        ≡ ("hr", hr) ∷ [])
trigger_sync-dry_example =
    trigger_sync-dry contract source store 60 (done tt) skip world "hr" manual 5 9

trigger_sync-logged_example :
    ((x : Exception) × ((begin_run 60 (done tt) world "hr" false manual 5).1 ≡ threw x)
      × (trigger_sync contract source store 60 (done tt) skip world "hr" false manual 5 9
          ≡ ((begin_run 60 (done tt) world "hr" false manual 5).0, threw x)))
    ⊎ ((c : Connection) × (log : SyncLog) × (r : TriggerSyncResponse) × ((begin_run 60
            (done tt)
            world
            "hr"
            false
            manual
            5).1
          ≡ done (c, log))
        × ((trigger_sync contract source store 60 (done tt) skip world "hr" false manual 5 9).1
            ≡ done r)
        × (r.sync_log.id ≡ log.id)
        × (get_log_by_id
              (trigger_sync contract source store 60
                (done tt)
                skip
                world
                "hr"
                false
                manual
                5
                9).0.logs
              log.id
            ≡ some r.sync_log)
        × (r.sync_log.finished_at ≡ some 9)
        × (is_running r.sync_log.status ≡ false))
trigger_sync-logged_example =
    trigger_sync-logged contract source store 60 (done tt) skip world "hr" false manual 5 9

begin_run-exclusive_example :
    begin_run 60
      (done tt)
      (begin_run 60 (done tt) world "hr" false manual 5).0
      "hr"
      false
      scheduled
      2_000
    ≡ (
      (begin_run 60 (done tt) world "hr" false manual 5).0,
      threw (conflict_error (says "Sync already in progress for this connection")),
    )
unfolding get assert_real_sync_not_in_progress get_open_running_log latest_where
begin_run-exclusive_example =
    begin_run-exclusive 60 world "hr" hr manual scheduled 5 2_000 refl refl refl refl (omega arith)

abbrev settings : SchedulerSettings
settings = record {
  boot_overdue_grace_minutes = 5;
  failure_autopause_threshold = 2;
  stale_minutes = 60;
}

abbrev orphaned : Scheduled (List String)
orphaned = record {
  world = record world { connections = ("hr", record hr { last_sync_status = in_progress }) ∷ [] };
  notified = [];
}

attempts-orphaned_example :
    ((attempts settings
        (λ c now. next (now + 10))
        (λ w id dry src now.
          trigger_sync contract source store 60 (done tt) skip w id dry src now now)
        orphaned
        (record hr { last_sync_status = in_progress })
        (200 ∷ 9_000_000 ∷ [])).world.connections
      ≡ ("hr", record hr { last_sync_status = in_progress }) ∷ [])
    × ((attempts settings
          (λ c now. next (now + 10))
          (λ w id dry src now.
            trigger_sync contract source store 60 (done tt) skip w id dry src now now)
          orphaned
          (record hr { last_sync_status = in_progress })
          (200 ∷ 9_000_000 ∷ [])).world.logs
        ≡ record { rows = []; next_id = 7 })
    × ((attempts settings
          (λ c now. next (now + 10))
          (λ w id dry src now.
            trigger_sync contract source store 60 (done tt) skip w id dry src now now)
          orphaned
          (record hr { last_sync_status = in_progress })
          (200 ∷ 9_000_000 ∷ [])).world.directory
        ≡ "bob" ∷ [])
unfolding get get_open_running_log latest_where
attempts-orphaned_example =
    attempts-orphaned settings (λ c now. next (now + 10))
      (λ w id dry src now.
        trigger_sync contract source store 60 (done tt) skip w id dry src now now)
      orphaned (record hr { last_sync_status = in_progress }) (200 ∷ 9_000_000 ∷ []) refl refl refl

get-fail_each_example :
    (last : Connection) × (get "hr"
        (fail_each 2 hr
          (record { world = world; notified = [] })
          ((5, says "down") ∷ (6, says "down") ∷ [])).world.connections
      ≡ some last)
    × (last.schedule_consecutive_failures ≡ 2)
    × (last.schedule_paused ≡ leb 2 2)
unfolding get
get-fail_each_example =
    get-fail_each 2 hr ((5, says "down") ∷ (6, says "down") ∷ [])
      (record { world = world; notified = [] }) hr (omega arith) refl refl

-- A contract whose path of the user's id finds nothing.
abbrev broken_contract : Contract String
broken_contract = record contract { id_value = λ row. missing }

abbrev fresh_run : RunState (List String)
fresh_run = record { directory = "bob" ∷ []; counters = new_counters; errors = []; audit = [] }

-- Groups and roles are fetched one user at a time, and the fetch fails.
abbrev fetched_contract : Contract String
fetched_contract = record contract { embedded = λ kind. false }

abbrev failing_source : Source String
failing_source = record source {
  fetch_entities_raw = λ kind token id. threw (other_error (says "down"));
}

abbrev alice : ProcessedUser String
alice = record { external_user_id = "alice"; raw_row = "alice"; local_user_id = some "alice" }

should_skip-apply_user_memberships_example :
    should_skip_orphan_deletion group
      (apply_user_memberships fetched_contract failing_source store hr false
        (alice ∷ [])
        "token"
        fresh_run).0.counters
    ≡ (should_skip_orphan_deletion group new_counters
        || any_throws fetched_contract failing_source store group "token" (alice ∷ []))
unfolding apply_user_memberships gather_memberships gather_user get set
should_skip-apply_user_memberships_example =
    should_skip-apply_user_memberships fetched_contract failing_source store hr false group
      (alice ∷ []) "token" fresh_run refl

-- A store in which another identity owns every username.
abbrev owned_store : Directory (List String)
owned_store = record store {
  upsert_user = λ d c user.
      (d, threw (username_collision_error user.id user.username (says "Username already in use")));
}

effective_sync_all_concurrency-safe_example :
    (effective_sync_all_concurrency 4 fail_run (hr ∷ []) ≤ 4)
    × (((x : Exception) × ((fetch_and_map_users contract source owned_store hr fail_run false
              fresh_run).1
            ≡ threw x))
        ⊎ ((fetch_and_map_users contract source owned_store hr fail_run false
              fresh_run).0.counters.counts.users_skipped_collision
            ≡ 0))
unfolding effective_sync_all_concurrency all_fail_run
effective_sync_all_concurrency-safe_example =
    effective_sync_all_concurrency-safe contract source owned_store 4 fail_run [] hr [] false
      fresh_run (omega arith)

abbrev run_hr :
    World (List String)
    → String
    → Bool
    → TriggerSource
    → ℕ
    → World (List String) × Outcome TriggerSyncResponse
run_hr w id dry src now = trigger_sync contract source store 60 (done tt) skip w id dry src now now

sync_all-totals_example :
    (sync_all 60 run_hr false 5 world).1.1.succeeded
      + ((sync_all 60 run_hr false 5 world).1.1.failed
          + ((sync_all 60 run_hr false 5 world).1.1.skipped_in_progress
              + (sync_all 60 run_hr false 5 world).1.1.excluded))
    ≡ length (sync_all 60 run_hr false 5 world).1.0
sync_all-totals_example = sync_all-totals 60 run_hr false 5 world
