-- ===== src/Sync/All/Counts.antt =====
-- The totals of a run of all the sources, and its concurrency.
use nest_id_p.Base.{
  ℕ, ◌+◌, ◌≤◌, ◌<◌, ◌≡◌, inl, inr, refl, String, Bool, true, false, not, ◌&&◌, Option, none, some,
  ◌⊎◌, List, [], ◌∷◌, ◌++◌, map, arith, length, keep, All, Bool-cases,
}
use nest_id_p.Base.Eq.{nat_eq, string_eq, ◌==◌}
use mathlib.Core.Path.{subst}
use nest_id_p.Base.{sym}
use nest_id_p.Sync.Errors.{Outcome, done, threw}
use nest_id_p.Sync.Log.{TriggerSource}
use nest_id_p.Sync.Directory.{
  Connection, Contract, Source, Directory, World, CollisionPolicy, fail_run, skip,
}
use nest_id_p.Sync.Users.{RunState, policy_of, fetch_and_map_users}
use nest_id_p.Sync.Users.FailRun.{fetch_and_map_users-skipped}
use nest_id_p.Sync.Errors.{Exception, Outcome-cases}
use nest_id_p.Sync.Run.{TriggerSyncResponse}
use nest_id_p.Sync.Run.{is_sync_in_progress}
use nest_id_p.Sync.Scheduler.{has_failed}
use nest_id_p.Sync.Log.{SyncLog, manual_all}
use nest_id_p.Base.{length-append}
use nest_id_p.Sync.All.{
  is_conflict, own_policy, fails_run, log_result, takes_part, is_excluded, SyncAllStatus,
  ConnectionResult, empty_result, outcome_result, status_is, totals_of, sync_one, sync_each,
  sync_all, all_fail_run, effective_sync_all_concurrency,
}

-- A policy of its own that fails the run for the bound also fails it in the run.
policy_of-own :
    (global : CollisionPolicy) (c : Connection) (own : Option String)
    → fails_run (own_policy global c own) ≡ true
    → policy_of own global ≡ fail_run
policy_of-own fail_run c none h = refl
policy_of-own skip c none h = ground (arith, h)
policy_of-own global c (some text) h = elim (Bool-cases (text == "fail_run")) [
  | inl e ↦
      subst (λ (t : String). policy_of (some t) global ≡ fail_run)
        (sym ((string_eq.beq_iff text "fail_run").0 e)) refl
  | inr e ↦ ground (arith, e, h)
]

all_fail_run-append :
    (global : CollisionPolicy) (before : List Connection) (c : Connection) (after : List Connection)
    → all_fail_run global (before ++ c ∷ after) ≡ true
    → fails_run (own_policy global c c.username_collision_policy) ≡ true
unfolding all_fail_run
all_fail_run-append global [] c after h = ground (arith, h)
all_fail_run-append global (b ∷ before) c after h =
    all_fail_run-append global before c after (ground (arith, h))

effective_sync_all_concurrency-all_fail_run :
    (configured : ℕ) (global : CollisionPolicy) (cs : List Connection)
    → 1 < effective_sync_all_concurrency configured global cs
    → (all_fail_run global cs ≡ true)
      × (effective_sync_all_concurrency configured global cs ≤ configured)
unfolding effective_sync_all_concurrency
effective_sync_all_concurrency-all_fail_run configured global cs h = ground (arith, h)

-- Where the runs of these sources may go on more than one at a time, there are at most as many as
-- configured, and the run of any of them skips no user over a username that another identity owns:
-- its phase of the users throws, or counts no skipped user.
pub effective_sync_all_concurrency-safe :
    {Json D : Type 0} (contract : Contract Json) (source : Source Json) (store : Directory D)
    (configured : ℕ) (global : CollisionPolicy) (before : List Connection) (c : Connection)
    (after : List Connection) (dry_run : Bool) (s : RunState D)
    → 1 < effective_sync_all_concurrency configured global (before ++ c ∷ after)
    → (effective_sync_all_concurrency configured global (before ++ c ∷ after) ≤ configured)
      × (((x : Exception) × ((fetch_and_map_users contract source store c global dry_run s).1
              ≡ threw x))
          ⊎ ((fetch_and_map_users contract source store c global dry_run
                s).0.counters.counts.users_skipped_collision
              ≡ s.counters.counts.users_skipped_collision))
effective_sync_all_concurrency-safe contract source store configured global before c after dry_run s
      h =
    let (fails, bounded) =
      effective_sync_all_concurrency-all_fail_run configured global (before ++ c ∷ after) h in
    let policy =
      policy_of-own global c c.username_collision_policy
        (all_fail_run-append global before c after fails) in
    let phase = fetch_and_map_users contract source store c global dry_run s in
    (
      bounded,
      elim (Outcome-cases phase.1) [
        | inl (o, e) ↦
            inr (fetch_and_map_users-skipped contract source store c global dry_run s o policy e)
        | inr (x, e) ↦ inl (x, e)
      ],
    )

-- The results of a status.
abbrev count : SyncAllStatus → List ConnectionResult → ℕ
count status rs = length (keep (status_is status) rs)

abbrev RunResult : ConnectionResult → Type 0
RunResult r = status_is SyncAllStatus.excluded r ≡ false

count-run :
    (rs : List ConnectionResult)
    → All RunResult rs
    → count SyncAllStatus.succeeded rs
        + (count SyncAllStatus.failed rs + count SyncAllStatus.skipped_in_progress rs)
      ≡ length rs
count-run [] a = refl
count-run (r ∷ rs) (h, a) = ground (arith, count-run rs a)

count-append :
    (status : SyncAllStatus) (rs qs : List ConnectionResult)
    → count status (rs ++ qs) ≡ count status rs + count status qs
count-append status [] qs = omega arith
count-append status (r ∷ rs) qs = ground (arith, count-append status rs qs)

-- A source that is left out counts for nothing else.
count-excluded :
    (cs : List Connection)
    → (count SyncAllStatus.succeeded (map (empty_result SyncAllStatus.excluded none) cs) ≡ 0)
      × (count SyncAllStatus.failed (map (empty_result SyncAllStatus.excluded none) cs) ≡ 0)
      × (count SyncAllStatus.skipped_in_progress (map (empty_result SyncAllStatus.excluded none) cs)
          ≡ 0)
count-excluded [] = (refl, refl, refl)
count-excluded (c ∷ cs) = count-excluded cs

log_result-RunResult : (c : Connection) (log : SyncLog) → RunResult (log_result c log)
log_result-RunResult c log = elim (Bool-cases (has_failed log.status)) [
  | inl h ↦ rw h refl
  | inr h ↦ rw h refl
]

outcome_result-RunResult :
    (c : Connection) (o : Outcome TriggerSyncResponse) → RunResult (outcome_result c o)
unfolding outcome_result
outcome_result-RunResult c (done response) = log_result-RunResult c response.sync_log
outcome_result-RunResult c (threw e) = elim (Bool-cases (is_conflict e)) [
  | inl h ↦ rw (h, outcome_result) refl
  | inr h ↦ rw (h, outcome_result) refl
]

totals_of-sum :
    (included : List ConnectionResult) (cs : List Connection)
    → All RunResult included
    → (totals_of included (map (empty_result SyncAllStatus.excluded none) cs)).succeeded
        + ((totals_of included (map (empty_result SyncAllStatus.excluded none) cs)).failed
            + ((totals_of included
                  (map (empty_result SyncAllStatus.excluded none) cs)).skipped_in_progress
                + (totals_of included
                    (map (empty_result SyncAllStatus.excluded none) cs)).excluded))
      ≡ (totals_of included (map (empty_result SyncAllStatus.excluded none) cs)).connections
unfolding totals_of
totals_of-sum included cs a =
    let out = map (empty_result SyncAllStatus.excluded none) cs in
    let (s, f, k) = count-excluded cs in
    omega (
      arith,
      count-append SyncAllStatus.succeeded included out,
      count-append SyncAllStatus.failed included out,
      count-append SyncAllStatus.skipped_in_progress included out,
      s,
      f,
      k,
      count-run included a,
      length-append included out,
    )

module _ {D : Type 0} (stale_minutes : ℕ)
    (trigger_sync : World D
      → String
      → Bool
      → TriggerSource
      → ℕ
      → World D × Outcome TriggerSyncResponse) where
  sync_one-RunResult :
      (dry_run : Bool) (now : ℕ) (w : World D) (c : Connection)
      → RunResult (sync_one stale_minutes trigger_sync dry_run now w c).1
  unfolding sync_one
  sync_one-RunResult dry_run now w c =
      elim (Bool-cases (not dry_run && is_sync_in_progress stale_minutes w c.id now)) [
        | inl h ↦ rw (h, sync_one) refl
        | inr h ↦
            rw (h, sync_one)
              (outcome_result-RunResult c (trigger_sync w c.id dry_run manual_all now).1)
      ]

  sync_each-RunResult :
      (dry_run : Bool) (now : ℕ) (w : World D) (cs : List Connection)
      → All RunResult (sync_each stale_minutes trigger_sync dry_run now w cs).1
  unfolding sync_each
  sync_each-RunResult dry_run now w [] = tt
  sync_each-RunResult dry_run now w (c ∷ cs) = (
    sync_one-RunResult dry_run now w c,
    sync_each-RunResult dry_run now (sync_one stale_minutes trigger_sync dry_run now w c).0 cs,
  )

  -- Every source that the totals count is counted under exactly one status: those that succeeded,
  -- failed, were skipped and were left out add up to the number of the results.
  pub sync_all-totals :
      (dry_run : Bool) (now : ℕ) (w : World D)
      → (sync_all stale_minutes trigger_sync dry_run now w).1.1.succeeded
          + ((sync_all stale_minutes trigger_sync dry_run now w).1.1.failed
              + ((sync_all stale_minutes trigger_sync dry_run now w).1.1.skipped_in_progress
                  + (sync_all stale_minutes trigger_sync dry_run now w).1.1.excluded))
        ≡ length (sync_all stale_minutes trigger_sync dry_run now w).1.0
  unfolding sync_all totals_of
  sync_all-totals dry_run now w =
      let rows = map (λ (e : String × Connection). e.1) w.connections in
      totals_of-sum (sync_each stale_minutes trigger_sync dry_run now w (keep takes_part rows)).1
        (keep is_excluded rows) (sync_each-RunResult dry_run now w (keep takes_part rows))
