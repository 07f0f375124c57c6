-- ===== src/CertRotation/Commands/Never.antt =====
-- No request and no tick loses an active certificate.
use mathlib.Core.Path.{subst}
use nest_id_p.Base.Text.{is_empty}
use nest_id_p.Sync.Errors.{Exception, Message, Outcome, done, threw, Outcome-cases, message_of}
use nest_id_p.AuthProtection.Config.{day_ms}
use nest_id_p.CertRotation.{
  CertKind, signing, encryption, IdpSettings, Slot, State, CertEvent, CertNotice, write,
  change_slot, is_set, has_pending, pending_data, complete_data, clear_pending_data,
  auto_rotation_started, on_started, rotation_completed, rotation_cancelled,
  auto_rotation_check_run, log_event, find_settings_or_throw,
}
use nest_id_p.CertRotation.Held.{
  IsSound, RowHeld, change_slot-Held, pending_data-Held, complete_data-Held,
  clear_pending_data-Held,
}
use nest_id_p.CertRotation.Service.{Crypto, is_given, or_same, complete_rotation, cancel_rotation}
use nest_id_p.CertRotation.Config.{CertRotationConfig}
use nest_id_p.CertRotation.Auto.{
  Reader, Trigger, scheduled, by_hand, boot, auto_start_kind, auto_complete_kind, announced,
  clear_failure_data, with_action, not_after_from_days, report_unparseable, due_soon,
  evaluate_active, evaluate_cert, evaluate_auto_rotation_for_kind, is_cert_expiring_soon, is_boot,
  within_boot_grace, overlap_elapsed, effective_overlap_days, log_failure, failed_slot,
  auto_autodisables, record_auto_rotation_failure, or_recorded, check_kind, with_check, released,
  run_auto_rotation_check, run_auto_rotation_check_on_demand, run_tick,
}
use nest_id_p.CertRotation.Commands.{
  Command, update, generate_primary, upload_primary, start, complete, cancel, check,
  check_on_demand, tick, perform, perform_all,
}
use nest_id_p.CertRotation.Commands.Keeps.{
  write-RowHeld, update_settings-RowHeld, generate_primary_cert-RowHeld,
  upload_primary_cert-RowHeld, start_rotation-RowHeld, end_rotation-RowHeld,
}
use nest_id_p.Base.{
  ℕ, ◌+◌, ◌*◌, ◌≡◌, inl, inr, refl, sym, String, Bool, true, false, not, ◌&&◌, ◌||◌, Option, none,
  some, List, [], ◌∷◌, arith, if◌then◌else◌, Bool-cases, Option-cases,
}
use nest_id_p.Base.Eq.{nat_eq, string_eq}

module _ {Options : Type 0} (crypto : Crypto Options) (reader : Reader Options)
    (config : CertRotationConfig) (sound : IsSound crypto) (kind : CertKind) (active : Bool) where
  announced-row :
      (event : CertEvent) (notice : CertNotice) (v : State × Outcome IdpSettings)
      → (announced crypto reader config event notice v).0.row ≡ v.0.row
  announced-row event notice (s, threw x) = refl
  announced-row event notice (s, done r) = refl

  auto_start_kind-RowHeld :
      (k : CertKind) (r : IdpSettings) (now : ℕ) (dry_run : Bool) (s : State)
      → RowHeld kind active s.row
      → RowHeld kind active (auto_start_kind crypto reader config k r now dry_run s).0.row
  unfolding auto_start_kind
  auto_start_kind-RowHeld k r now true s h = h
  auto_start_kind-RowHeld k r now false s h =
      let options =
        reader.same_options (r.slots k).crypto (not_after_from_days config.validity_days now) in
      elim (Outcome-cases (crypto.generate k r.entity_id options)) [
        | inr (x, g) ↦ rw (g, auto_start_kind) h
        | inl (p, g) ↦
            let key = crypto.encrypt p.private_key_pem in
            let change : Slot → Slot =
              λ slot. clear_failure_data (pending_data p.cert_pem key p.crypto now slot) in
            rw (g, auto_start_kind)
              (subst (λ (o : Option IdpSettings). RowHeld kind active o)
                (sym (
                  announced-row (auto_rotation_started k false) (on_started k false)
                    (write (λ row. with_action now (change_slot k change row)) s)))
                (write-RowHeld crypto reader config sound kind active
                  (λ row. with_action now (change_slot k change row)) s
                  (λ row. change_slot-Held active k kind change row (
                    pending_data-Held active p.cert_pem key p.crypto now (row.slots k)
                      (sound.generated k r.entity_id options p g)
                      (sound.encrypted p.private_key_pem)))
                  h))
      ]

  auto_complete_kind-RowHeld :
      (k : CertKind) (now : ℕ) (dry_run : Bool) (s : State)
      → RowHeld kind active s.row
      → RowHeld kind active (auto_complete_kind crypto reader config k now dry_run s).0.row
  unfolding auto_complete_kind
  auto_complete_kind-RowHeld k now dry_run s h = elim (Option-cases s.row) [
    | inl e ↦ rw (e, auto_complete_kind) h
    | inr (r, e) ↦ elim (Bool-cases (has_pending (r.slots k))) [
      | inr b ↦ rw (e, auto_complete_kind, b) h
      | inl b ↦ elim (Bool-cases dry_run) [
        | inl d ↦ rw (e, auto_complete_kind, b, d) h
        | inr d ↦
            let held = rw e at h in
            rw (e, auto_complete_kind, b, d)
              (change_slot-Held active k kind (λ slot. clear_failure_data (complete_data slot)) r
                (complete_data-Held active (r.slots k) b) held)
      ]
    ]
  ]

  report_unparseable-row :
      (k : CertKind) (cert : String) (s : State)
      → (report_unparseable crypto reader config k cert s).row ≡ s.row
  report_unparseable-row k cert s = ground arith

  due_soon-row :
      (k : CertKind) (not_after now : ℕ) (s : State)
      → (due_soon crypto reader config k not_after now s).row ≡ s.row
  due_soon-row k not_after now s = ground arith

  evaluate_active-RowHeld :
      (k : CertKind) (r : IdpSettings) (cert : String) (now : ℕ) (trigger : Trigger)
      (dry_run : Bool) (s : State)
      → RowHeld kind active s.row
      → RowHeld kind active
          (evaluate_active crypto reader config k r cert now trigger dry_run s).0.row
  unfolding evaluate_active
  evaluate_active-RowHeld k r cert now trigger dry_run s h =
      elim (Option-cases (reader.not_after cert)) [
        | inl e ↦
            rw (e, evaluate_active)
              (subst (λ (o : Option IdpSettings). RowHeld kind active o)
                (sym (report_unparseable-row k cert s)) h)
        | inr (t, e) ↦ elim (Bool-cases (is_cert_expiring_soon t (config.lead_days k) now)) [
          | inr b ↦
              rw (e, evaluate_active, b)
                (subst (λ (o : Option IdpSettings). RowHeld kind active o)
                  (sym (due_soon-row k t now s)) h)
          | inl b ↦
              elim (Bool-cases
                (is_boot trigger && not (within_boot_grace config.boot_grace_hours t now))) [
                  | inl g ↦ rw (e, evaluate_active, b, g) h
                  | inr g ↦
                      rw (e, evaluate_active, b, g) (auto_start_kind-RowHeld k r now dry_run s h)
                ]
        ]
      ]

  evaluate-RowHeld :
      (k : CertKind) (r : IdpSettings) (now : ℕ) (trigger : Trigger) (dry_run : Bool) (s : State)
      → RowHeld kind active s.row
      → RowHeld kind active
          (evaluate_auto_rotation_for_kind crypto reader config k r now trigger dry_run s).0.row
  unfolding evaluate_auto_rotation_for_kind evaluate_cert
  evaluate-RowHeld k r now trigger dry_run s h =
      let slot = r.slots k in
      elim (Bool-cases (not slot.auto_rotate_enabled || is_given slot.disabled_at)) [
        | inl b ↦ rw (b, evaluate_auto_rotation_for_kind) h
        | inr b ↦ elim (Option-cases slot.cert_pem) [
          | inl e ↦ rw (b, evaluate_auto_rotation_for_kind, e) h
          | inr (cert, e) ↦ elim (Bool-cases (is_empty cert)) [
            | inl n ↦ rw (b, evaluate_auto_rotation_for_kind, e, n) h
            | inr n ↦ elim (Bool-cases (is_set slot.pending_cert_pem)) [
              | inr p ↦
                  rw (b, evaluate_auto_rotation_for_kind, e, n, evaluate_cert, p)
                    (evaluate_active-RowHeld k r cert now trigger dry_run s h)
              | inl p ↦
                  elim (Bool-cases (
                    overlap_elapsed crypto reader config slot.rotation_started_at
                      (effective_overlap_days crypto reader config k cert now * day_ms) now)) [
                        | inl o ↦
                            rw (b, evaluate_auto_rotation_for_kind, e, n, evaluate_cert, p, o)
                              (auto_complete_kind-RowHeld k now dry_run s h)
                        | inr o ↦
                            rw (b, evaluate_auto_rotation_for_kind, e, n, evaluate_cert, p, o) h
                      ]
            ]
          ]
        ]
      ]

  log_failure-row :
      (k : CertKind) (reason : Message) (n : ℕ) (b : Bool) (v : State × Outcome IdpSettings)
      → (log_failure crypto reader config k reason n b v).0.row ≡ v.0.row
  log_failure-row k reason n b (s, threw x) = refl
  log_failure-row k reason n true (s, done r) = refl
  log_failure-row k reason n false (s, done r) = refl

  record_failure-RowHeld :
      (k : CertKind) (r : IdpSettings) (x : Exception) (now : ℕ) (s : State)
      → RowHeld kind active s.row
      → RowHeld kind active (record_auto_rotation_failure crypto reader config k r x now s).0.row
  unfolding record_auto_rotation_failure
  record_failure-RowHeld k r x now s h =
      let failures = (r.slots k).consecutive_failures + 1 in
      let disables = auto_autodisables config.failure_autodisable_threshold failures in
      let change = failed_slot (reader.redact (message_of x)) failures disables now in
      subst (λ (o : Option IdpSettings). RowHeld kind active o)
        (sym (
          log_failure-row k (reader.redact (message_of x)) failures disables
            (write (change_slot k change) s)))
        (write-RowHeld crypto reader config sound kind active (change_slot k change) s
          (λ row. change_slot-Held active k kind change row (λ held. held)) h)

  or_recorded-RowHeld :
      (k : CertKind) (r : IdpSettings) (now : ℕ) (v : State × Outcome IdpSettings)
      → RowHeld kind active v.0.row
      → RowHeld kind active (or_recorded crypto reader config k r now v).0.row
  or_recorded-RowHeld k r now (s, done next) h = h
  or_recorded-RowHeld k r now (s, threw x) h = record_failure-RowHeld k r x now s h

  check_kind-RowHeld :
      (k : CertKind) (now : ℕ) (trigger : Trigger) (dry_run : Bool)
      (v : State × Outcome IdpSettings)
      → RowHeld kind active v.0.row
      → RowHeld kind active (check_kind crypto reader config k now trigger dry_run v).0.row
  unfolding check_kind
  check_kind-RowHeld k now trigger dry_run (s, threw x) h = h
  check_kind-RowHeld k now trigger dry_run (s, done r) h =
      or_recorded-RowHeld k r now
        (evaluate_auto_rotation_for_kind crypto reader config k r now trigger dry_run s)
        (evaluate-RowHeld k r now trigger dry_run s h)

  with_check-RowHeld :
      (now : ℕ) (v : State × Outcome IdpSettings)
      → RowHeld kind active v.0.row
      → RowHeld kind active (with_check crypto reader config now v).0.row
  with_check-RowHeld now (s, threw x) h = h
  with_check-RowHeld now (s, done r) h =
      write-RowHeld crypto reader config sound kind active
        (λ row. record row { last_auto_rotation_check_at = some now }) s (λ row held. held) h

  released-row :
      (v : State × Outcome IdpSettings) → (released crypto reader config v).0.row ≡ v.0.row
  released-row (s, x) = refl

  pub run_auto_rotation_check-RowHeld :
      (trigger : Trigger) (dry : Option Bool) (now : ℕ) (s : State)
      → RowHeld kind active s.row
      → RowHeld kind active (run_auto_rotation_check crypto reader config trigger dry now s).0.row
  unfolding run_auto_rotation_check
  run_auto_rotation_check-RowHeld trigger dry now s h =
      elim (Bool-cases s.auto_rotation_in_flight) [
        | inl f ↦ rw (f, run_auto_rotation_check) h
        | inr f ↦
            let dry_run = or_same dry config.dry_run in
            let claimed = record s { auto_rotation_in_flight = true } in
            let first =
              check_kind crypto reader config signing now trigger dry_run
                (claimed, find_settings_or_throw claimed) in
            let second = check_kind crypto reader config encryption now trigger dry_run first in
            rw (f, run_auto_rotation_check)
              (subst (λ (o : Option IdpSettings). RowHeld kind active o)
                (sym (released-row (with_check crypto reader config now second)))
                (with_check-RowHeld now second (
                  check_kind-RowHeld encryption now trigger dry_run first (
                    check_kind-RowHeld signing now trigger dry_run
                      (claimed, find_settings_or_throw claimed) h))))
      ]

  perform-RowHeld :
      (c : Command Options) (s : State)
      → RowHeld kind active s.row
      → RowHeld kind active (perform crypto reader config c s).row
  unfolding complete_rotation cancel_rotation run_auto_rotation_check_on_demand run_tick
  perform-RowHeld (update body) s h =
      update_settings-RowHeld crypto reader config sound kind active body s h
  perform-RowHeld (generate_primary k options) s h =
      generate_primary_cert-RowHeld crypto reader config sound kind active k options s h
  perform-RowHeld (upload_primary k cert key) s h =
      upload_primary_cert-RowHeld crypto reader config sound kind active k cert key s h
  perform-RowHeld (start k from now) s h =
      start_rotation-RowHeld crypto reader config sound kind active k from now s h
  perform-RowHeld (complete k) s h =
      end_rotation-RowHeld crypto reader config sound kind active complete_data
        (rotation_completed k) k s (complete_data-Held active) h
  perform-RowHeld (cancel k) s h =
      end_rotation-RowHeld crypto reader config sound kind active clear_pending_data
        (rotation_cancelled k) k s (λ slot pending. clear_pending_data-Held active slot) h
  perform-RowHeld (check trigger dry now) s h = run_auto_rotation_check-RowHeld trigger dry now s h
  perform-RowHeld (check_on_demand now) s h =
      run_auto_rotation_check-RowHeld by_hand none now
        (log_event (auto_rotation_check_run config.dry_run) s) h
  perform-RowHeld (tick pending now) s h =
      run_auto_rotation_check-RowHeld (if pending then boot else scheduled) none now s h

  -- Whatever requests and ticks reach the service, in any order: where the pending certificate of a
  -- kind stood with its key and its start, it does so after them, and where the kind had an active
  -- certificate with its key, it has one after them, provided that the certificates that are
  -- generated or pass validation, and the encrypted keys, are no empty texts.
  pub perform_all-RowHeld :
      (cs : List (Command Options)) (s : State)
      → RowHeld kind active s.row
      → RowHeld kind active (perform_all crypto reader config cs s).row
  perform_all-RowHeld [] s h = h
  perform_all-RowHeld (c ∷ cs) s h =
      perform_all-RowHeld cs (perform crypto reader config c s) (perform-RowHeld c s h)
