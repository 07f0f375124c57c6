-- ===== src/Sync/Run/Guard.antt =====
-- The guard against two runs of a connection.
use nest_id_p.Base.Tests.{if-false}
use nest_id_p.Base.{
  ℕ, ◌+◌, ◌*◌, ◌≤◌, ◌≡◌, inl, inr, refl, ap, ◌∙◌, String, Bool, true, false, none, some, List, ◌∷◌,
  arith, ltb, Bool-cases, Option-cases, ltb→lt, ltb-false, if-false,
}
use nest_id_p.Base.Eq.{nat_eq, string_eq, beq_refl}
use nest_id_p.Base.Maps.{get, get-set}
use nest_id_p.Sync.Errors.{Outcome, done, threw, says, conflict_error}
use nest_id_p.Sync.Log.{
  SyncLogStatus, finish_log, SyncLog, Logs, TriggerSource, latest_where, get_open_running_log,
  is_open, create_running_log,
}
use nest_id_p.Sync.Directory.{Connection, World, update_connection, in_progress}
use nest_id_p.Sync.Counters.{no_counts}
use nest_id_p.Sync.Run.{
  begin_checked, interrupted, is_in_progress, is_stale_run, is_sync_in_progress,
  is_real_sync_in_progress, assert_real_sync_not_in_progress, begin_run, guarded, mark_failed,
}

-- The row that is chosen starts no earlier than the first one that passes.
latest_where-le :
    (test : SyncLog → Bool) (row : SyncLog) (rows : List SyncLog)
    → test row ≡ true
    → (r : SyncLog) × (latest_where test (row ∷ rows) ≡ some r) × (row.started_at ≤ r.started_at)
unfolding latest_where
latest_where-le test row rows h = elim (Option-cases (latest_where test rows)) [
  | inl e ↦ (row, rw (h, e, latest_where) refl, omega arith)
  | inr (r, e) ↦ elim (Bool-cases (ltb row.started_at r.started_at)) [
    | inl l ↦ (r, rw (h, e, latest_where, l) refl, omega (arith, ltb→lt _ _ l))
    | inr g ↦ (row, rw (h, e, latest_where, g) refl, omega arith)
  ]
]

module _ {D : Type 0} where
  pub get-update_connection :
      (w : World D) (id : String) (change : Connection → Connection) (c : Connection)
      → get id w.connections ≡ some c
      → get id (update_connection w id change).connections ≡ some (change c)
  unfolding update_connection
  get-update_connection w id change c e =
      rw (e, update_connection, get-set id id (change c) w.connections, beq_refl id) refl

  -- The row that the guard leaves at a connection: the same but for its status.
  Passes : String → World D → Type 0
  Passes id w =
      (c : Connection) × (get id w.connections ≡ some c)
      × (c.id ≡ id)
      × (c.is_local_directory ≡ false)

  update-Passes :
      (w : World D) (id : String) (change : Connection → Connection) (c : Connection)
      → get id w.connections ≡ some c
      → c.id ≡ id
      → (change c).id ≡ c.id
      → (change c).is_local_directory ≡ false
      → Passes id (update_connection w c.id change)
  unfolding Passes
  update-Passes w id change c e i k l = (
    change c,
    ap (λ (j : String). get id (update_connection w j change).connections) i
        ∙ get-update_connection w id change c e,
    k ∙ i,
    l,
  )

  assert-Passes :
      (stale_minutes : ℕ) (w : World D) (id : String) (c : Connection) (now : ℕ)
      → get id w.connections ≡ some c
      → c.id ≡ id
      → c.is_local_directory ≡ false
      → Passes id (assert_real_sync_not_in_progress stale_minutes w c now).0
  unfolding assert_real_sync_not_in_progress Passes
  assert-Passes stale_minutes w id c now e i l =
      elim (Option-cases (get_open_running_log w.logs c.id)) [
        | inl o ↦ elim (Bool-cases (is_in_progress c.last_sync_status)) [
          | inl h ↦
              rw (o, assert_real_sync_not_in_progress, h)
                (update-Passes w id mark_failed c e i refl l)
          | inr h ↦ rw (o, assert_real_sync_not_in_progress, h) (c, e, i, l)
        ]
        | inr (log, o) ↦ elim (Bool-cases (is_stale_run stale_minutes log now)) [
          | inl h ↦
              rw (o, assert_real_sync_not_in_progress, h)
                (update-Passes
                  (record w {
                    logs =
                        finish_log w.logs log.id SyncLogStatus.failed no_counts (some interrupted)
                          now;
                  })
                  id mark_failed c e i refl l)
          | inr h ↦ rw (o, assert_real_sync_not_in_progress, h) (c, e, i, l)
        ]
      ]

  -- The world that a real run has claimed, once its guard has let it through.
  abbrev claimed : World D → String → TriggerSource → ℕ → World D
  claimed w id trigger_source now =
      update_connection (record w { logs = (create_running_log w.logs id trigger_source now).0 }) id
        (λ c. record c { last_sync_status = in_progress })

  begin_run-claimed :
      (stale_minutes : ℕ) (w : World D) (id : String) (c : Connection) (src : TriggerSource)
      (now : ℕ)
      → get id w.connections ≡ some c
      → c.is_local_directory ≡ false
      → (assert_real_sync_not_in_progress stale_minutes w c now).1 ≡ done tt
      → (begin_run stale_minutes (done tt) w id false src now).0
        ≡ claimed (assert_real_sync_not_in_progress stale_minutes w c now).0 id src now
  unfolding begin_run guarded
  begin_run-claimed stale_minutes w id c src now e l g =
      rw (e, begin_run)
        (ap (λ (r : World D × Outcome (Connection × SyncLog)). r.0)
            (if-false c.is_local_directory _ _ l)
          ∙ rw (g, guarded) refl)

  assert-refuses :
      (stale_minutes : ℕ) (w : World D) (c : Connection) (log : SyncLog) (now : ℕ)
      → get_open_running_log w.logs c.id ≡ some log
      → now ≤ log.started_at + stale_minutes * 60_000
      → guarded stale_minutes w c false now
        ≡ (w, threw (conflict_error (says "Sync already in progress for this connection")))
  unfolding guarded assert_real_sync_not_in_progress is_stale_run
  assert-refuses stale_minutes w c log now o t =
      rw (o, ltb-false _ _ t, assert_real_sync_not_in_progress) refl

  -- A connection whose newest run is not stale refuses a real run, and nothing changes.
  begin_run-refused :
      (stale_minutes : ℕ) (w : World D) (id : String) (c : Connection) (log : SyncLog)
      (src : TriggerSource) (now : ℕ)
      → get id w.connections ≡ some c
      → c.is_local_directory ≡ false
      → c.id ≡ id
      → get_open_running_log w.logs id ≡ some log
      → now ≤ log.started_at + stale_minutes * 60_000
      → begin_run stale_minutes (done tt) w id false src now
        ≡ (w, threw (conflict_error (says "Sync already in progress for this connection")))
  unfolding begin_run begin_checked
  begin_run-refused stale_minutes w id c log src now e l i o t =
      let busy : get_open_running_log w.logs c.id ≡ some log =
        ap (get_open_running_log w.logs) i ∙ o in
      rw (e, begin_run)
        (if-false c.is_local_directory _ _ l
          ∙ ap (begin_checked stale_minutes id c false src now)
              (assert-refuses stale_minutes w c log now busy t))

  logs-update_connection :
      (w : World D) (id : String) (change : Connection → Connection)
      → (update_connection w id change).logs ≡ w.logs
  unfolding update_connection
  logs-update_connection w id change = elim (Option-cases (get id w.connections)) [
    | inl e ↦ rw (e, update_connection) refl
    | inr (c, e) ↦ rw (e, update_connection) refl
  ]

  -- A claimed connection has an open log that starts at the claim or later.
  claimed-open :
      (w : World D) (id : String) (src : TriggerSource) (now : ℕ)
      → (log : SyncLog) × (get_open_running_log (claimed w id src now).logs id ≡ some log)
        × (now ≤ log.started_at)
  unfolding get_open_running_log create_running_log
  claimed-open w id src now =
      let (logs, row) = create_running_log w.logs id src now in
      let (log, e, t) = latest_where-le (is_open id) row w.logs.rows (rw (beq_refl id) refl) in
      (
        log,
        ap (λ (l : Logs). get_open_running_log l id)
              (logs-update_connection (record w { logs = logs }) id
                (λ c. record c { last_sync_status = in_progress }))
            ∙ e,
        t,
      )

  -- While a real run of a connection is open and not stale, a second one is refused and changes
  -- nothing: once the guard has let a run through, `begin_run` throws the conflict for as long as the
  -- stale time, whatever the trigger.
  pub begin_run-exclusive :
      (stale_minutes : ℕ) (w : World D) (id : String) (c : Connection) (src other : TriggerSource)
      (now later : ℕ)
      → get id w.connections ≡ some c
      → c.id ≡ id
      → c.is_local_directory ≡ false
      → (assert_real_sync_not_in_progress stale_minutes w c now).1 ≡ done tt
      → later ≤ now + stale_minutes * 60_000
      → begin_run stale_minutes
          (done tt)
          (begin_run stale_minutes (done tt) w id false src now).0
          id
          false
          other
          later
        ≡ (
          (begin_run stale_minutes (done tt) w id false src now).0,
          threw (conflict_error (says "Sync already in progress for this connection")),
        )
  unfolding Passes
  begin_run-exclusive stale_minutes w id c src other now later e i l g t =
      let checked = (assert_real_sync_not_in_progress stale_minutes w c now).0 in
      let (d, f, j, m) = assert-Passes stale_minutes w id c now e i l in
      let (log, o, s) = claimed-open checked id src now in
      let found =
        get-update_connection
          (record checked { logs = (create_running_log checked.logs id src now).0 }) id
          (λ c. record c { last_sync_status = in_progress }) d f in
      rw (begin_run-claimed stale_minutes w id c src now e l g) (
        begin_run-refused stale_minutes (claimed checked id src now) id
          (record d { last_sync_status = in_progress }) log other later found m j o
          (omega (arith, t, s)))

  -- A connection whose status says that a run is in progress, with no open log, counts as busy at
  -- any time, although the guard of a run would let a new one through: what only waits for the run to
  -- end waits for ever.
  pub is_sync_in_progress-orphaned :
      (stale_minutes : ℕ) (w : World D) (id : String) (c : Connection) (now : ℕ)
      → get id w.connections ≡ some c
      → c.last_sync_status ≡ in_progress
      → get_open_running_log w.logs c.id ≡ none
      → (is_sync_in_progress stale_minutes w id now ≡ true)
        × ((assert_real_sync_not_in_progress stale_minutes w c now).1 ≡ done tt)
  unfolding is_sync_in_progress is_real_sync_in_progress assert_real_sync_not_in_progress
  is_sync_in_progress-orphaned stale_minutes w id c now e s o = (
    rw (e, is_sync_in_progress) (rw (o, is_real_sync_in_progress) (ap is_in_progress s)),
    rw (o, assert_real_sync_not_in_progress) refl,
  )
