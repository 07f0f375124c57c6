-- ===== src/Sync/Log.antt =====
-- apps/api/src/sync/services/sync-log.service.ts: the logs of the runs, newest row first. The
-- database gives a new row an id that no row has, here the next number.
use nest_id_p.Base.{
  ℕ, ◌+◌, String, Bool, true, false, ◌&&◌, Option, none, some, List, [], ◌∷◌, leb, ltb,
  if◌then◌else◌, take, keep,
}
use nest_id_p.Base.Eq.{◌==◌, nat_eq, string_eq}
use nest_id_p.Base.Eq.{◌==◌}
use Prim.Native.String.{String, ◌∷◌}
use Prim.Native.Nat.{ℕ}
use nest_id_p.Base.{
  Bool, List, Option, String, ℕ, none, some, take, true, ◌∷◌, false, if◌then◌else◌, keep, ◌&&◌, ◌+◌,
  leb, ltb,
}
use nest_id_p.Sync.Errors.{ErrorEntry, cap_sync_errors}
use nest_id_p.Sync.Counters.{SyncCounterSnapshot, no_counts}

pub data SyncLogStatus : Type 0 where
  running success failed : SyncLogStatus

pub data TriggerSource : Type 0 where
  manual scheduled manual_all : TriggerSource

-- `trigger_source` is absent in rows that are older than it.
pub record SyncLog : Type 0 where
  pub id : ℕ
  pub api_connection_id : String
  pub started_at : ℕ
  pub finished_at : Option ℕ
  pub status : SyncLogStatus
  pub counts : SyncCounterSnapshot
  pub errors : Option (List ErrorEntry)
  pub trigger_source : Option TriggerSource

pub record Logs : Type 0 where
  pub rows : List SyncLog
  pub next_id : ℕ

unfoldable pub create_running_log : Logs → String → TriggerSource → ℕ → Logs × SyncLog
create_running_log logs api_connection_id trigger_source now =
    let row : SyncLog = record {
      id = logs.next_id;
      api_connection_id = api_connection_id;
      started_at = now;
      finished_at = none;
      status = running;
      counts = no_counts;
      errors = none;
      trigger_source = some trigger_source;
    } in
    (record { rows = row ∷ logs.rows; next_id = logs.next_id + 1 }, row)

-- The `update` of `finishLog`.
unfoldable pub finished :
    SyncLogStatus → SyncCounterSnapshot → Option (List ErrorEntry) → ℕ → SyncLog → SyncLog
finished status counts errors now row = record row {
  status = status;
  finished_at = some now;
  counts = counts;
  errors = elim errors [ none ↦ none | some es ↦ cap_sync_errors es ];
}

unfoldable pub update_row : ℕ → (SyncLog → SyncLog) → List SyncLog → List SyncLog
update_row id change [] = []
update_row id change (row ∷ rows) =
    let rest = update_row id change rows in if row.id == id then change row ∷ rest else row ∷ rest

unfoldable pub finish_log :
    Logs → ℕ → SyncLogStatus → SyncCounterSnapshot → Option (List ErrorEntry) → ℕ → Logs
finish_log logs id status counts errors now = record logs {
  rows = update_row id (finished status counts errors now) logs.rows;
}

-- The first of the rows with the latest start that pass the test.
unfoldable pub latest_where : (SyncLog → Bool) → List SyncLog → Option SyncLog
latest_where test [] = none
latest_where test (row ∷ rows) =
    let rest = latest_where test rows in
    if test row
    then (elim rest [
      | none ↦ some row
      | some r ↦ if ltb row.started_at r.started_at then some r else some row
    ])
    else rest

abbrev pub is_running : SyncLogStatus → Bool
is_running running = true
is_running _ = false

abbrev pub is_absent : Option ℕ → Bool
is_absent none = true
is_absent (some n) = false

abbrev pub is_open : String → SyncLog → Bool
is_open connection_id row =
    row.api_connection_id == connection_id && (is_running row.status && is_absent row.finished_at)

unfoldable pub get_open_running_log : Logs → String → Option SyncLog
get_open_running_log logs connection_id = latest_where (is_open connection_id) logs.rows

unfoldable pub get_latest_log_for_connection : Logs → String → Option SyncLog
get_latest_log_for_connection logs connection_id =
    latest_where (λ row. row.api_connection_id == connection_id) logs.rows

unfoldable pub find_row : ℕ → List SyncLog → Option SyncLog
find_row id [] = none
find_row id (row ∷ rows) = if row.id == id then some row else find_row id rows

unfoldable pub get_log_by_id : Logs → ℕ → Option SyncLog
unfolding find_row
get_log_by_id logs id = find_row id logs.rows

-- `triggerSourceFilter`: the filter `manual` also passes rows without a source.
abbrev pub passes_filter : Option TriggerSource → Option TriggerSource → Bool
passes_filter (some manual) (some manual) = true
passes_filter (some manual) none = true
passes_filter (some manual) _ = false
passes_filter (some scheduled) (some scheduled) = true
passes_filter (some scheduled) _ = false
passes_filter _ _ = true

insert_by_start : SyncLog → List SyncLog → List SyncLog
insert_by_start row [] = row ∷ []
insert_by_start row (r ∷ rows) =
    let rest = insert_by_start row rows in
    if leb r.started_at row.started_at then row ∷ r ∷ rows else r ∷ rest

-- `orderBy: { startedAt: 'desc' }`.
sort_by_start : List SyncLog → List SyncLog
unfolding insert_by_start
sort_by_start [] = []
sort_by_start (row ∷ rows) = insert_by_start row (sort_by_start rows)

pub list_logs_for_connection : Logs → String → ℕ → Option TriggerSource → List SyncLog
unfolding sort_by_start
list_logs_for_connection logs connection_id limit trigger_source = take limit (
    sort_by_start (
      keep
        (λ row.
          row.api_connection_id == connection_id && passes_filter trigger_source row.trigger_source)
        logs.rows))
