-- ===== src/Sync/Run/Laws.antt =====
-- What a whole run leaves.
use nest_id_p.Base.{
  [], false, ℕ, ◌≡◌, ◌⊎◌, inl, inr, refl, ◌∙◌, String, Bool, true, false, none, some, List, [],
  Bool-cases, Option-cases,
}
use nest_id_p.Base.Eq.{nat_eq, string_eq}
use nest_id_p.Base.Maps.{get}
use nest_id_p.Sync.Errors.{Exception, Outcome, done, threw, Outcome-cases}
use nest_id_p.Sync.Counters.{new_counters}
use mathlib.Core.Path.{subst}
use nest_id_p.Sync.Run.Ends.{begin_run-Claims, finalize_run-IsClosed, finalize_run-id}
use nest_id_p.Sync.Log.{is_running, SyncLog, TriggerSource, get_log_by_id}
use nest_id_p.Sync.Directory.{Connection, Contract, Source, Directory, World, CollisionPolicy}
use nest_id_p.Sync.Users.{RunState, ProcessedUser, fetch_and_map_users}
use nest_id_p.Sync.Users.Laws.{fetch_and_map_users-dry}
use nest_id_p.Sync.Memberships.{apply_user_memberships}
use nest_id_p.Sync.Memberships.Laws.{apply_user_memberships-dry}
use nest_id_p.Sync.Run.{
  after_users, deactivate_orphans, phases, caught, begin_run, guarded, finalize_run, trigger_sync,
  TriggerSyncResponse,
}

module _ {Json D : Type 0} (contract : Contract Json) (source : Source Json)
    (store : Directory D) where
  pub after_users-dry :
      (connection : Connection) (processed : List (ProcessedUser Json)) (token : String)
      (s : RunState D)
      → (after_users contract source store connection true processed token s).0.directory
        ≡ s.directory
  unfolding after_users deactivate_orphans
  after_users-dry connection processed token s =
      let first = apply_user_memberships contract source store connection true processed token s in
      let same = apply_user_memberships-dry contract source store connection processed token s in
      elim (Outcome-cases first.1) [
        | inl (u, e) ↦ rw (e, after_users) same
        | inr (x, e) ↦ rw (e, after_users) same
      ]

  phases-dry :
      (connection : Connection) (global : CollisionPolicy) (s : RunState D)
      → (phases contract source store connection global true s).0.directory ≡ s.directory
  unfolding phases
  phases-dry connection global s =
      let first = fetch_and_map_users contract source store connection global true s in
      let same = fetch_and_map_users-dry contract source store connection global s in
      elim (Outcome-cases first.1) [
        | inr (x, e) ↦ rw (e, phases) same
        | inl (none, e) ↦ rw (e, phases) same
        | inl (some (processed, token), e) ↦
            rw (e, phases) (after_users-dry connection processed token first.0 ∙ same)
      ]

  pub caught-directory :
      (s : RunState D) (o : Outcome Bool)
      → (caught contract source store s o).0.directory ≡ s.directory
  caught-directory s (done ok) = refl
  caught-directory s (threw x) = refl

  -- Claiming a dry run writes its log and nothing else.
  begin_run-dry :
      (stale_minutes : ℕ) (resolved : Outcome {0} Unit) (w : World D) (id : String)
      (src : TriggerSource) (now : ℕ)
      → ((begin_run stale_minutes resolved w id true src now).0.directory ≡ w.directory)
        × ((begin_run stale_minutes resolved w id true src now).0.connections ≡ w.connections)
  unfolding begin_run guarded
  begin_run-dry stale_minutes resolved w id src now = elim (Option-cases (get id w.connections)) [
    | inl e ↦ rw (e, begin_run) (refl, refl)
    | inr (c, e) ↦ elim (Bool-cases c.is_local_directory) [
      | inl l ↦ rw (e, l, begin_run) (refl, refl)
      | inr l ↦ elim (Outcome-cases resolved) [
        | inl (u, r) ↦ rw (e, l, r, begin_run) (refl, refl)
        | inr (x, r) ↦ rw (e, l, r, begin_run) (refl, refl)
      ]
    ]
  ]

  -- A dry run, whatever the source answers and whether it succeeds, fails or is refused, changes
  -- nothing in the identity store and nothing in the connections.
  pub trigger_sync-dry :
      (stale_minutes : ℕ) (resolved : Outcome {0} Unit) (global : CollisionPolicy) (w : World D)
      (id : String) (src : TriggerSource) (now later : ℕ)
      → ((trigger_sync contract source store stale_minutes resolved global w id true src now
            later).0.directory
          ≡ w.directory)
        × ((trigger_sync contract source store stale_minutes resolved global w id true src now
              later).0.connections
            ≡ w.connections)
  unfolding trigger_sync finalize_run
  trigger_sync-dry stale_minutes resolved global w id src now later =
      let begun = begin_run stale_minutes resolved w id true src now in
      let (stored, kept) = begin_run-dry stale_minutes resolved w id src now in
      elim (Outcome-cases begun.1) [
        | inr (x, e) ↦ rw (e, trigger_sync) (stored, kept)
        | inl ((connection, log), e) ↦
            let start : RunState D = record {
              directory = begun.0.directory;
              counters = new_counters;
              errors = [];
              audit = begun.0.audit;
            } in
            let ended = phases contract source store connection global true start in
            rw (e, trigger_sync)
              (caught-directory ended.0 ended.1 ∙ phases-dry connection global start ∙ stored, kept)
      ]

module _ {Json D : Type 0} (contract : Contract Json) (source : Source Json)
    (store : Directory D) where
  -- A run whose claim is refused throws what the claim threw and leaves the world as the claim left
  -- it. Every other run ends, whatever the source, the contract and the store answer or throw: it
  -- throws nothing and answers the log that its claim opened, which has succeeded or failed, and which
  -- the table holds under its id, finished at the time of the end.
  pub trigger_sync-logged :
      (stale_minutes : ℕ) (resolved : Outcome {0} Unit) (global : CollisionPolicy) (w : World D)
      (id : String) (dry_run : Bool) (src : TriggerSource) (now later : ℕ)
      → ((x : Exception) × ((begin_run stale_minutes resolved w id dry_run src now).1 ≡ threw x)
          × (trigger_sync contract source store stale_minutes resolved global w id dry_run src now
                later
              ≡ ((begin_run stale_minutes resolved w id dry_run src now).0, threw x)))
        ⊎ ((c : Connection) × (log : SyncLog) × (r : TriggerSyncResponse) × ((begin_run
                stale_minutes resolved w id dry_run src now).1
              ≡ done (c, log))
            × ((trigger_sync contract source store stale_minutes resolved global w id dry_run src
                  now later).1
                ≡ done r)
            × (r.sync_log.id ≡ log.id)
            × (get_log_by_id
                  (trigger_sync contract source store stale_minutes resolved global w id dry_run src
                    now later).0.logs
                  log.id
                ≡ some r.sync_log)
            × (r.sync_log.finished_at ≡ some later)
            × (is_running r.sync_log.status ≡ false))
  unfolding trigger_sync
  trigger_sync-logged stale_minutes resolved global w id dry_run src now later =
      elim (begin_run-Claims stale_minutes resolved w id dry_run src now) [
        | inl (x, e) ↦ inl (x, e, rw (e, trigger_sync) refl)
        | inr (c, log, rest, e, rows) ↦
            let begun = begin_run stale_minutes resolved w id dry_run src now in
            let start : RunState D = record {
              directory = begun.0.directory;
              counters = new_counters;
              errors = [];
              audit = begun.0.audit;
            } in
            let (ended, outcome) = phases contract source store c global dry_run start in
            let (s, ok) = caught contract source store ended outcome in
            let (found, at, stopped) =
              finalize_run-IsClosed contract source store ok c log rest dry_run s begun.0 later
                rows in
            let same = finalize_run-id contract source store ok c log dry_run s begun.0 later in
            inr (
              c,
              log,
              (finalize_run contract source store ok c log dry_run s begun.0 later).1,
              e,
              rw (e, trigger_sync) refl,
              same,
              rw (e, trigger_sync)
                  (subst
                    (λ (i : ℕ).
                      get_log_by_id
                        (finalize_run contract source store ok c log dry_run s begun.0 later).0.logs
                        i
                      ≡ some
                          (finalize_run contract source store ok c log dry_run s begun.0
                            later).1.sync_log)
                    same found),
              at,
              stopped,
            )
      ]
