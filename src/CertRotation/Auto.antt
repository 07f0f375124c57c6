-- ===== src/CertRotation/Auto.antt =====
-- apps/api/src/idp-settings/services/idp-settings.service.ts: the automatic rotation, with the tick
-- of cert-rotation-scheduler.service.ts, isCertExpiringSoon and parseCertNotAfterIso of
-- apps/api/src/idp-settings/utils/idp-cert.util.ts. `not_after` reads the end of a certificate in
-- milliseconds, absent where it cannot be parsed; `digest` is SHA-256 and `redact` redactSecrets;
-- `same_options` repeats the algorithm of the active certificate with a day on which the new one
-- ends. A check reads the clock once. A notifier that throws is only logged.
use nest_id_p.Base.{◌/◌}
use Prim.Native.String.{◌++◌ as append}
use nest_id_p.Sync.Errors.{Message, Exception, Outcome, done, threw, message_of}
use nest_id_p.Base.Text.{is_empty}
use nest_id_p.AuthProtection.Config.{day_ms}
use nest_id_p.CertRotation.{
  CertKind, signing, encryption, Slot, IdpSettings, CryptoColumns, State, CertEvent, CertNotice,
  on_due_soon, on_started, on_completed, on_failed, active_cert_unparseable,
  auto_rotation_check_run, auto_rotation_deferred_boot, auto_rotation_due_soon,
  auto_rotation_started, auto_rotation_completed, auto_rotation_failed, auto_rotation_autodisabled,
  at_kind, change_slot, is_set, has_pending, pending_data, complete_data, notify, log_event, write,
  find_settings_or_throw, settings_missing,
}
use nest_id_p.CertRotation.Config.{CertRotationConfig}
use nest_id_p.CertRotation.Service.{Crypto, is_given, or_same}
use nest_id_p.Base.{
  ℕ, ◌+◌, ◌-◌, ◌*◌, min, String, Bool, true, false, not, ◌&&◌, ◌||◌, Option, none, some, ◌∷◌, leb,
  ltb, nat_beq, if◌then◌else◌,
}
use nest_id_p.Base.Eq.{nat_eq, string_eq, contains}

pub data Trigger : Type 0 where
  scheduled by_hand boot : Trigger

pub record Reader (Options : Type 0) : Type 0 where
  pub not_after : String → Option ℕ
  pub digest : String → String
  pub redact : Message → Message
  pub same_options : CryptoColumns → ℕ → Options

abbrev pub is_cert_expiring_soon : ℕ → ℕ → ℕ → Bool
is_cert_expiring_soon not_after warning_days now = leb not_after (now + warning_days * day_ms)

abbrev pub is_boot : Trigger → Bool
is_boot boot = true
is_boot scheduled = false
is_boot by_hand = false

-- `notAfterFromDays`: a day, counted from the epoch.
abbrev pub not_after_from_days : ℕ → ℕ → ℕ
not_after_from_days days now = (now + days * day_ms) / day_ms

abbrev pub clear_failure_data : Slot → Slot
clear_failure_data s = record s { consecutive_failures = 0; last_error = none }

abbrev pub with_action : ℕ → IdpSettings → IdpSettings
with_action now r = record r { last_auto_rotation_action_at = some now }

abbrev pub auto_autodisables : ℕ → ℕ → Bool
auto_autodisables threshold count = ltb 0 threshold && leb threshold count

abbrev pub failed_slot : Message → ℕ → Bool → ℕ → Slot → Slot
failed_slot reason failures autodisable now s = record s {
  consecutive_failures = failures;
  last_error = some reason;
  disabled_at = if autodisable then some now else s.disabled_at;
}

abbrev pub kind_text : CertKind → String
kind_text signing = "signing"
kind_text encryption = "encryption"

abbrev pub within_boot_grace : ℕ → ℕ → ℕ → Bool
within_boot_grace grace_hours not_after now = leb not_after (now + grace_hours * 3_600_000)

abbrev pub same_time : Option ℕ → ℕ → Bool
same_time none n = false
same_time (some m) n = nat_beq m n

module _ {Options : Type 0} (crypto : Crypto Options) (reader : Reader Options)
    (config : CertRotationConfig) where
  -- Whole days that are left; what has passed counts as none.
  unfoldable pub effective_overlap_days : CertKind → String → ℕ → ℕ
  effective_overlap_days kind cert now = elim (reader.not_after cert) [
    | none ↦ config.overlap_days kind
    | some t ↦ min (config.overlap_days kind) ((t - now) / day_ms)
  ]

  -- The notices and events that follow a write.
  abbrev pub announced :
      CertEvent → CertNotice → State × Outcome IdpSettings → State × Outcome IdpSettings
  announced event notice (s, threw x) = (s, threw x)
  announced event notice (s, done r) = (notify notice (log_event event s), done r)

  unfoldable pub auto_start_kind :
      CertKind → IdpSettings → ℕ → Bool → State → State × Outcome IdpSettings
  auto_start_kind kind r now true s =
      (notify (on_started kind true) (log_event (auto_rotation_started kind true) s), done r)
  auto_start_kind kind r now false s =
      elim (crypto.generate kind r.entity_id (
        reader.same_options (r.slots kind).crypto (not_after_from_days config.validity_days now))) [
          | threw x ↦ (s, threw x)
          | done pair ↦ announced (auto_rotation_started kind false) (on_started kind false) (
              write
                (λ row. with_action now (
                  change_slot kind
                    (λ slot. clear_failure_data (
                      pending_data pair.cert_pem (crypto.encrypt pair.private_key_pem) pair.crypto
                        now slot))
                    row))
                s)
        ]

  -- The row is read again: the pending certificate may be gone.
  unfoldable pub auto_complete_kind : CertKind → ℕ → Bool → State → State × Outcome IdpSettings
  auto_complete_kind kind now dry_run s = elim s.row [
    | none ↦ (s, threw settings_missing)
    | some r ↦
        if not (has_pending (r.slots kind))
        then (s, done r)
        else if dry_run
        then (
          notify (on_completed kind true) (log_event (auto_rotation_completed kind true) s),
          done r,
        )
        else (let promoted =
              with_action now
                (change_slot kind (λ slot. clear_failure_data (complete_data slot)) r) in
            (
              notify (on_completed kind false) (
                  log_event (auto_rotation_completed kind false)
                    (record s { row = some promoted })),
              done promoted,
            ))
  ]

  -- An unparseable certificate is audited once.
  abbrev pub report_unparseable : CertKind → String → State → State
  report_unparseable kind cert s =
      let key = append (kind_text kind) (append ":" (reader.digest cert)) in
      if contains key s.unparseable_cert_audited
      then s
      else log_event (active_cert_unparseable kind)
          (record s { unparseable_cert_audited = key ∷ s.unparseable_cert_audited })

  -- The notice of a certificate that ends soon, once for each end.
  abbrev pub due_soon : CertKind → ℕ → ℕ → State → State
  due_soon kind not_after now s =
      if is_cert_expiring_soon not_after config.notify_lead_days now
        && not (same_time (s.due_soon_notified_not_after kind) not_after)
      then log_event (auto_rotation_due_soon kind not_after) (
          notify (on_due_soon kind not_after) (record s {
            due_soon_notified_not_after =
                at_kind kind (some not_after) s.due_soon_notified_not_after;
          }))
      else s

  -- An active certificate without a rotation.
  unfoldable pub evaluate_active :
      CertKind → IdpSettings → String → ℕ → Trigger → Bool → State → State × Outcome IdpSettings
  evaluate_active kind r cert now trigger dry_run s = elim (reader.not_after cert) [
    | none ↦ (report_unparseable kind cert s, done r)
    | some not_after ↦
        if is_cert_expiring_soon not_after (config.lead_days kind) now
        then (if is_boot trigger && not (within_boot_grace config.boot_grace_hours not_after now)
            then (log_event (auto_rotation_deferred_boot kind not_after) s, done r)
            else auto_start_kind kind r now dry_run s)
        else (due_soon kind not_after now s, done r)
  ]

  abbrev pub overlap_elapsed : Option ℕ → ℕ → ℕ → Bool
  overlap_elapsed none overlap_ms now = false
  overlap_elapsed (some started_at) overlap_ms now = leb (started_at + overlap_ms) now

  unfoldable pub evaluate_cert :
      CertKind → IdpSettings → String → ℕ → Trigger → Bool → State → State × Outcome IdpSettings
  evaluate_cert kind r cert now trigger dry_run s =
      if is_set (r.slots kind).pending_cert_pem
      then (if overlap_elapsed (r.slots kind).rotation_started_at
            (effective_overlap_days kind cert now * day_ms) now
          then auto_complete_kind kind now dry_run s
          else (s, done r))
      else evaluate_active kind r cert now trigger dry_run s

  -- `evaluateAutoRotationForKind`; the first certificate is never made here.
  unfoldable pub evaluate_auto_rotation_for_kind :
      CertKind → IdpSettings → ℕ → Trigger → Bool → State → State × Outcome IdpSettings
  evaluate_auto_rotation_for_kind kind r now trigger dry_run s =
      if not (r.slots kind).auto_rotate_enabled || is_given (r.slots kind).disabled_at
      then (s, done r)
      else (elim (r.slots kind).cert_pem [
        | none ↦ (s, done r)
        | some cert ↦
            if is_empty cert then (s, done r) else evaluate_cert kind r cert now trigger dry_run s
      ])

  abbrev pub disabled_event : Bool → CertKind → ℕ → State → State
  disabled_event true kind failures s = log_event (auto_rotation_autodisabled kind failures) s
  disabled_event false kind failures s = s

  abbrev pub log_failure :
      CertKind → Message → ℕ → Bool → State × Outcome IdpSettings → State × Outcome IdpSettings
  log_failure kind reason failures autodisable (s, threw x) = (s, threw x)
  log_failure kind reason failures autodisable (s, done r) = (
    notify (on_failed kind reason) (
        disabled_event autodisable kind failures
          (log_event (auto_rotation_failed kind reason failures) s)),
    done r,
  )

  -- The failures are counted from the settings of before the evaluation.
  unfoldable pub record_auto_rotation_failure :
      CertKind → IdpSettings → Exception → ℕ → State → State × Outcome IdpSettings
  record_auto_rotation_failure kind r x now s =
      let failures = (r.slots kind).consecutive_failures + 1 in
      let autodisable = auto_autodisables config.failure_autodisable_threshold failures in
      log_failure kind (reader.redact (message_of x)) failures autodisable (
        write
          (change_slot kind (failed_slot (reader.redact (message_of x)) failures autodisable now))
          s)

  -- One turn of the loop over the kinds.
  abbrev pub or_recorded :
      CertKind → IdpSettings → ℕ → State × Outcome IdpSettings → State × Outcome IdpSettings
  or_recorded kind r now (s, done next) = (s, done next)
  or_recorded kind r now (s, threw x) = record_auto_rotation_failure kind r x now s

  unfoldable pub check_kind :
      CertKind → ℕ → Trigger → Bool → State × Outcome IdpSettings → State × Outcome IdpSettings
  check_kind kind now trigger dry_run (s, threw x) = (s, threw x)
  check_kind kind now trigger dry_run (s, done r) =
      or_recorded kind r now (evaluate_auto_rotation_for_kind kind r now trigger dry_run s)

  abbrev pub with_check : ℕ → State × Outcome IdpSettings → State × Outcome IdpSettings
  with_check now (s, threw x) = (s, threw x)
  with_check now (s, done r) =
      write (λ row. record row { last_auto_rotation_check_at = some now }) s

  -- The `finally` of the check.
  abbrev pub released : State × Outcome IdpSettings → State × Outcome IdpSettings
  released (s, result) = (record s { auto_rotation_in_flight = false }, result)

  unfoldable pub run_auto_rotation_check :
      Trigger → Option Bool → ℕ → State → State × Outcome IdpSettings
  run_auto_rotation_check trigger dry now s =
      if s.auto_rotation_in_flight
      then (s, find_settings_or_throw s)
      else (let dry_run = or_same dry config.dry_run in
          let claimed = record s { auto_rotation_in_flight = true } in
          released (
            with_check now (
              check_kind encryption now trigger dry_run (
                check_kind signing now trigger dry_run (claimed, find_settings_or_throw claimed)))))

  unfoldable pub run_auto_rotation_check_on_demand : ℕ → State → State × Outcome IdpSettings
  run_auto_rotation_check_on_demand now s =
      run_auto_rotation_check by_hand none now
        (log_event (auto_rotation_check_run config.dry_run) s)

  -- `runTick`: the first tick of a process is that of its start; an exception is only logged.
  unfoldable pub run_tick : Bool → ℕ → State → State
  run_tick boot_tick_pending now s =
      (run_auto_rotation_check (if boot_tick_pending then boot else scheduled) none now s).0
