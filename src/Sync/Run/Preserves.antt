-- ===== src/Sync/Run/Preserves.antt =====
-- A run reaches the identity store through the operations of its interface only, with the id of
-- its connection: what these operations keep, the run keeps.
use nest_id_p.Sync.Run.Laws.{caught-directory, after_users-dry}
use nest_id_p.Sync.Users.Preserves.{fetch_and_map_users-keeps}
use nest_id_p.Sync.Memberships.Preserves.{apply_user_memberships-keeps}
use nest_id_p.Sync.Memberships.{apply_user_memberships}
use nest_id_p.Sync.Counters.{should_skip_orphan_deletion}
use nest_id_p.Base.{
  ℕ, ◌≡◌, inl, inr, refl, sym, ap, ◌∙◌, String, Bool, true, false, none, some, List, [], arith,
  Bool-cases, Option-cases,
}
use mathlib.Core.Path.{subst}
use nest_id_p.Base.{if-false}
use nest_id_p.Sync.Log.{SyncLog, TriggerSource, get_open_running_log}
use nest_id_p.Sync.Counters.{new_counters}
use nest_id_p.Base.Eq.{nat_eq, string_eq}
use nest_id_p.Base.Maps.{get}
use nest_id_p.Sync.Errors.{Kind, group, role, Outcome, done, threw, Outcome-cases}
use nest_id_p.Sync.Directory.{
  Preserves, Connection, Contract, Source, Directory, CollisionPolicy, update_connection, World,
  in_progress,
}
use nest_id_p.Sync.Users.{RunState, ProcessedUser, fetch_and_map_users}
use nest_id_p.Sync.Run.{
  delete_kind, deactivate_orphans, after_users, phases, apply_user_memberships, fetch_and_map_users,
  should_skip_orphan_deletion, assert_real_sync_not_in_progress, begin_checked, begin_run,
  finalize_run, guarded, trigger_sync, caught, is_in_progress, mark_failed, is_stale_run,
}

module _ {Json D : Type 0} (contract : Contract Json) (source : Source Json) (store : Directory D)
    (connection : Connection) (P : D → Type 0) (keeps : Preserves store connection.id P) where
  delete_kind-keeps :
      (kind : Kind) (s : RunState D)
      → P s.directory
      → P (delete_kind contract source store connection.id kind s).0.directory
  unfolding delete_kind
  delete_kind-keeps kind s p = elim (Bool-cases (should_skip_orphan_deletion kind s.counters)) [
    | inl b ↦ rw (b, delete_kind) p
    | inr b ↦
        let kept = keeps.by_orphans s.directory kind (s.counters.seen kind) p in
        elim (Outcome-cases
          (store.delete_orphans s.directory kind connection.id (s.counters.seen kind)).1) [
            | inl (n, e) ↦ rw (b, delete_kind, e) kept
            | inr (x, e) ↦ rw (b, delete_kind, e) kept
          ]
  ]

  -- Phase C.
  deactivate_orphans-keeps :
      (dry_run : Bool) (s : RunState D)
      → P s.directory
      → P (deactivate_orphans contract source store connection.id dry_run s).0.directory
  unfolding deactivate_orphans
  deactivate_orphans-keeps true s p = p
  deactivate_orphans-keeps false s p =
      let result = store.deactivate_users_not_in s.directory connection.id s.counters.seen_users in
      let written : RunState D = record s { directory = result.0 } in
      let kept = keeps.by_deactivate s.directory s.counters.seen_users p in
      let grouped = delete_kind contract source store connection.id group written in
      let kept_groups = delete_kind-keeps group written kept in
      elim (Outcome-cases result.1) [
        | inr (x, e) ↦ rw (e, deactivate_orphans) kept
        | inl (n, e) ↦ elim (Outcome-cases grouped.1) [
          | inl (u, f) ↦
              rw (e, deactivate_orphans, f) (delete_kind-keeps role grouped.0 kept_groups)
          | inr (x, f) ↦ rw (e, deactivate_orphans, f) kept_groups
        ]
      ]

  after_users-keeps :
      (dry_run : Bool) (us : List (ProcessedUser Json)) (token : String) (s : RunState D)
      → P s.directory
      → P (after_users contract source store connection dry_run us token s).0.directory
  unfolding after_users
  after_users-keeps true us token s p =
      subst (λ (d : D). P d) (sym (after_users-dry contract source store connection us token s)) p
  after_users-keeps false us token s p =
      let first = apply_user_memberships contract source store connection false us token s in
      let kept =
        apply_user_memberships-keeps contract source store connection P keeps false us token s p in
      let swept = deactivate_orphans contract source store connection.id false first.0 in
      let kept_after = deactivate_orphans-keeps false first.0 kept in
      elim (Outcome-cases first.1) [
        | inr (x, e) ↦ rw (e, after_users) kept
        | inl (u, e) ↦ elim (Outcome-cases swept.1) [
          | inr (x, f) ↦ rw (e, after_users, f) kept_after
          | inl (v, f) ↦ rw (e, after_users, f) kept_after
        ]
      ]

  -- What the operations of the store keep, the phases of a run keep.
  pub phases-keeps :
      (global : CollisionPolicy) (dry_run : Bool) (s : RunState D)
      → P s.directory
      → P (phases contract source store connection global dry_run s).0.directory
  unfolding phases
  phases-keeps global dry_run s p =
      let first = fetch_and_map_users contract source store connection global dry_run s in
      let kept =
        fetch_and_map_users-keeps contract source store connection P keeps global dry_run s p in
      elim (Outcome-cases first.1) [
        | inr (x, e) ↦ rw (e, phases) kept
        | inl (none, e) ↦ rw (e, phases) kept
        | inl (some (us, token), e) ↦
            rw (e, phases) (after_users-keeps dry_run us token first.0 kept)
      ]

module _ {D : Type 0} where
  update_connection-directory :
      (w : World D) (id : String) (change : Connection → Connection)
      → (update_connection w id change).directory ≡ w.directory
  unfolding update_connection
  update_connection-directory w id change = elim (Option-cases (get id w.connections)) [
    | inl e ↦ rw (e, update_connection) refl
    | inr (c, e) ↦ rw (e, update_connection) refl
  ]

  assert_real_sync_not_in_progress-directory :
      (stale_minutes : ℕ) (w : World D) (c : Connection) (now : ℕ)
      → (assert_real_sync_not_in_progress stale_minutes w c now).0.directory ≡ w.directory
  unfolding assert_real_sync_not_in_progress
  assert_real_sync_not_in_progress-directory stale_minutes w c now =
      elim (Option-cases (get_open_running_log w.logs c.id)) [
        | inl e ↦ elim (Bool-cases (is_in_progress c.last_sync_status)) [
          | inl b ↦
              rw (e, assert_real_sync_not_in_progress, b)
                (update_connection-directory w c.id mark_failed)
          | inr b ↦ rw (e, assert_real_sync_not_in_progress, b) refl
        ]
        | inr (log, e) ↦ elim (Bool-cases (is_stale_run stale_minutes log now)) [
          | inl b ↦
              rw (e, assert_real_sync_not_in_progress, b)
                (update_connection-directory _ c.id mark_failed)
          | inr b ↦ rw (e, assert_real_sync_not_in_progress, b) refl
        ]
      ]

  begin_checked-directory :
      (stale_minutes : ℕ) (id : String) (c : Connection) (dry_run : Bool) (src : TriggerSource)
      (now : ℕ) (g : World D × Outcome {0} Unit)
      → (begin_checked stale_minutes id c dry_run src now g).0.directory ≡ g.0.directory
  unfolding begin_checked
  begin_checked-directory stale_minutes id c dry_run src now (w, threw x) = refl
  begin_checked-directory stale_minutes id c true src now (w, done u) = refl
  begin_checked-directory stale_minutes id c false src now (w, done u) =
      update_connection-directory _ id (λ c. record c { last_sync_status = in_progress })

  guarded-directory :
      (stale_minutes : ℕ) (w : World D) (c : Connection) (dry_run : Bool) (now : ℕ)
      → (guarded stale_minutes w c dry_run now).0.directory ≡ w.directory
  unfolding guarded
  guarded-directory stale_minutes w c true now = refl
  guarded-directory stale_minutes w c false now =
      assert_real_sync_not_in_progress-directory stale_minutes w c now

  -- The claim of a run leaves the identity store alone, and answers the row of the connection.
  begin_run-directory :
      (stale_minutes : ℕ) (resolved : Outcome {0} Unit) (w : World D) (id : String) (dry_run : Bool)
      (src : TriggerSource) (now : ℕ)
      → (begin_run stale_minutes resolved w id dry_run src now).0.directory ≡ w.directory
  unfolding begin_run
  begin_run-directory stale_minutes resolved w id dry_run src now =
      elim (Option-cases (get id w.connections)) [
        | inl e ↦ rw (e, begin_run) refl
        | inr (c, e) ↦ elim (Bool-cases c.is_local_directory) [
          | inl l ↦ rw (e, l, begin_run) refl
          | inr l ↦ elim (Outcome-cases resolved) [
            | inr (x, r) ↦ rw (e, l, r, begin_run) refl
            | inl (u, r) ↦
                rw (e, r, begin_run)
                  (subst
                    (λ (b : World D × Outcome (Connection × SyncLog)). b.0.directory ≡ w.directory)
                    (sym (if-false c.is_local_directory _ _ l))
                    (begin_checked-directory stale_minutes id c dry_run src now
                        (guarded stale_minutes w c dry_run now)
                      ∙ guarded-directory stale_minutes w c dry_run now))
          ]
        ]
      ]

  begin_checked-row :
      (stale_minutes : ℕ) (id : String) (c : Connection) (dry_run : Bool) (src : TriggerSource)
      (now : ℕ) (g : World D × Outcome {0} Unit) (c2 : Connection) (log : SyncLog)
      → (begin_checked stale_minutes id c dry_run src now g).1 ≡ done (c2, log)
      → c ≡ c2
  unfolding begin_checked
  begin_checked-row stale_minutes id c dry_run src now (w, threw x) c2 log h = ground (arith, h)
  begin_checked-row stale_minutes id c dry_run src now (w, done u) c2 log h = ground (arith, h)

  begin_run-row :
      (stale_minutes : ℕ) (resolved : Outcome {0} Unit) (w : World D) (id : String) (dry_run : Bool)
      (src : TriggerSource) (now : ℕ) (c2 : Connection) (log : SyncLog)
      → (begin_run stale_minutes resolved w id dry_run src now).1 ≡ done (c2, log)
      → get id w.connections ≡ some c2
  unfolding begin_run
  begin_run-row stale_minutes resolved w id dry_run src now c2 log h =
      elim (Option-cases (get id w.connections)) [
        | inl e ↦ let z = rw (e, begin_run) at h in ground (arith, z)
        | inr (c, e) ↦ elim (Bool-cases c.is_local_directory) [
          | inl l ↦ let z = rw (e, l, begin_run) at h in ground (arith, z)
          | inr l ↦ elim (Outcome-cases resolved) [
            | inr (x, r) ↦ let z = rw (e, l, r, begin_run) at h in ground (arith, z)
            | inl (u, r) ↦
                let z = rw (e, r, begin_run) at h in
                e
                ∙ ap some (
                    begin_checked-row stale_minutes id c dry_run src now
                      (guarded stale_minutes w c dry_run now) c2 log
                      (ap (λ (b : World D × Outcome (Connection × SyncLog)). b.1)
                          (sym (if-false c.is_local_directory _ _ l))
                        ∙ z))
          ]
        ]
      ]

module _ {Json D : Type 0} (contract : Contract Json) (source : Source Json)
    (store : Directory D) where
  finalize_run-directory :
      (ok : Bool) (c : Connection) (log : SyncLog) (dry_run : Bool) (s : RunState D) (w : World D)
      (now : ℕ)
      → (finalize_run contract source store ok c log dry_run s w now).0.directory ≡ s.directory
  unfolding finalize_run
  finalize_run-directory ok c log true s w now = refl
  finalize_run-directory ok c log false s w now = update_connection-directory _ c.id _

  -- Whatever the source answers, a property of the identity store that the five operations of its
  -- interface keep, when they are called with the id of the connection, is kept by a whole run of
  -- that connection, also where the run is refused, throws or fails.
  pub trigger_sync-keeps :
      (P : D → Type 0) (stale_minutes : ℕ) (resolved : Outcome {0} Unit) (global : CollisionPolicy)
      (w : World D) (id : String) (dry_run : Bool) (src : TriggerSource) (now later : ℕ)
      → ((c : Connection) → get id w.connections ≡ some c → Preserves store c.id P)
      → P w.directory
      → P
          (trigger_sync contract source store stale_minutes resolved global w id dry_run src now
            later).0.directory
  unfolding trigger_sync
  trigger_sync-keeps P stale_minutes resolved global w id dry_run src now later keeps p =
      let begun = begin_run stale_minutes resolved w id dry_run src now in
      let begun_p =
        subst (λ (d : D). P d)
          (sym (begin_run-directory stale_minutes resolved w id dry_run src now)) p in
      elim (Outcome-cases begun.1) [
        | inr (x, e) ↦ rw (e, trigger_sync) begun_p
        | inl ((c, log), e) ↦
            let start : RunState D = record {
              directory = begun.0.directory;
              counters = new_counters;
              errors = [];
              audit = begun.0.audit;
            } in
            let ended = phases contract source store c global dry_run start in
            let row = begin_run-row stale_minutes resolved w id dry_run src now c log e in
            let kept =
              phases-keeps contract source store c P (keeps c row) global dry_run start begun_p in
            let last = caught contract source store ended.0 ended.1 in
            rw (e, trigger_sync)
              (subst (λ (d : D). P d)
                (sym (
                  finalize_run-directory last.1 c log dry_run last.0 begun.0 later
                  ∙ caught-directory contract source store ended.0 ended.1))
                kept)
      ]
