-- ===== src/Examples/CertExamples.antt =====
-- The rotation of certificates on concrete settings.
use nest_id_p.Base.{◌≡◌, inr, refl, sym, ap, String, Bool, true, false, none, some, [], ◌∷◌, arith}
use nest_id_p.Base.Eq.{nat_eq, string_eq}
use nest_id_p.Base.Text.{is_empty}
use nest_id_p.Sync.Errors.{Outcome, done, threw}
use nest_id_p.CertRotation.{signing, IdpSettings, Slot, State, CertPair, no_crypto}
use nest_id_p.CertRotation.Service.{Crypto}
use nest_id_p.CertRotation.Config.{CertRotationConfig}
use nest_id_p.CertRotation.Held.{IsSound, RowHeld}
use nest_id_p.CertRotation.Auto.{Reader, scheduled, evaluate_auto_rotation_for_kind}
use nest_id_p.CertRotation.Commands.{tick, cancel, complete, perform_all}
use nest_id_p.CertRotation.Commands.Never.{perform_all-RowHeld}
use nest_id_p.CertRotation.Rotates.{IsRotated, evaluate-rotates}

abbrev pair : CertPair
pair = record { cert_pem = "new"; private_key_pem = "key"; crypto = no_crypto }

abbrev crypto : Crypto String
crypto = record {
  generate = λ kind entity_id options. done pair;
  validate = λ kind cert key signing_cert. done pair;
  encrypt = λ key. "v1";
  valid_entity_id = λ text. done text;
  valid_name_id_format = λ text. done text;
}

abbrev reader : Reader String
reader = record {
  not_after = λ cert. some 1_000;
  digest = λ cert. cert;
  redact = λ text. text;
  same_options = λ columns day. "same";
}

abbrev config : CertRotationConfig
config = record {
  tick_ms = 3_600_000;
  lead_days = λ kind. 30;
  overlap_days = λ kind. 7;
  validity_days = 365;
  notify_lead_days = 45;
  jitter_max_seconds = 0;
  boot_grace_hours = 0;
  failure_autodisable_threshold = 5;
  dry_run = false;
}

abbrev old_slot : Slot
old_slot = record {
  cert_pem = some "old";
  key_encrypted = some "v0";
  crypto = no_crypto;
  pending_cert_pem = none;
  pending_key_encrypted = none;
  pending_crypto = no_crypto;
  rotation_started_at = none;
  auto_rotate_enabled = true;
  last_error = none;
  consecutive_failures = 0;
  disabled_at = none;
}

abbrev settings : IdpSettings
settings = record {
  entity_id = "idp";
  name_id_format = "email";
  want_authn_requests_signed = false;
  slots = λ kind. old_slot;
  last_auto_rotation_check_at = none;
  last_auto_rotation_action_at = none;
}

abbrev state : State
state = record {
  row = some settings;
  auto_rotation_in_flight = false;
  unparseable_cert_audited = [];
  due_soon_notified_not_after = λ kind. none;
  audit = [];
  notices = [];
}

abbrev text_is_empty : Outcome CertPair → Bool
text_is_empty (done p) = is_empty p.cert_pem
text_is_empty (threw x) = true

crypto-IsSound : IsSound crypto
crypto-IsSound = record {
  generated = λ kind entity_id options p e. ap text_is_empty (sym e);
  validated = λ kind cert key signing_cert p e. ap text_is_empty (sym e);
  encrypted = λ key. refl;
}

perform_all-RowHeld_example :
    RowHeld signing true
      (perform_all crypto reader config
        (tick false 5 ∷ cancel signing ∷ tick false 6 ∷ complete signing ∷ [])
        state).row
perform_all-RowHeld_example =
    perform_all-RowHeld crypto reader config crypto-IsSound signing true
      (tick false 5 ∷ cancel signing ∷ tick false 6 ∷ complete signing ∷ []) state
      ((refl, λ p. ground (arith, p)), λ a. refl)

old-IsRotated : IsRotated (settings.slots signing) "old"
old-IsRotated = record { enabled = refl; not_disabled = refl; has_cert = refl; cert_set = refl }

evaluate-rotates_example :
    (r1 : IdpSettings) × (r2 : IdpSettings) × ((evaluate_auto_rotation_for_kind crypto reader config
        signing settings 900 scheduled false state).1
      ≡ done r1)
    × ((r1.slots signing).cert_pem ≡ some "old")
    × ((r1.slots signing).pending_cert_pem ≡ some "new")
    × ((evaluate_auto_rotation_for_kind crypto reader config signing r1 950 scheduled false
          (evaluate_auto_rotation_for_kind crypto reader config signing settings 900 scheduled false
            state).0).0.row
        ≡ some r2)
    × ((r2.slots signing).cert_pem ≡ some "new")
    × ((r2.slots signing).key_encrypted ≡ some "v1")
    × ((r2.slots signing).pending_cert_pem ≡ none)
evaluate-rotates_example =
    evaluate-rotates crypto reader config signing settings state "old" pair 1_000 900 950 refl
      old-IsRotated refl refl (omega arith) refl refl (omega arith) (inr (omega arith))
