-- ===== src/CertRotation/Config.antt =====
-- apps/api/src/idp-settings/cert-rotation.config.ts, over an environment as in the configuration of
-- the login protection.
use nest_id_p.CertRotation.{CertKind, signing, encryption}
use nest_id_p.AuthProtection.Config.{bounded_int, optional_int, Environment, Number, day_ms}
use nest_id_p.Base.Text.{text_beq}
use nest_id_p.Base.{ℕ, String, Bool, false, ◌||◌, Option, none, some}
use nest_id_p.Base.Eq.{nat_eq, string_eq}
use nest_id_p.Base.Text.{Text, codes}

-- The configuration, over the numbers it is read in.
pub record CertRotationConfigOf (N : Type 0) : Type 0 where
  pub tick_ms : N
  pub lead_days : CertKind → N
  pub overlap_days : CertKind → N
  pub validity_days : N
  pub notify_lead_days : N
  pub jitter_max_seconds : N
  pub boot_grace_hours : N
  pub failure_autodisable_threshold : N
  pub dry_run : Bool

-- The rotation counts in whole numbers.
abbrev pub CertRotationConfig : Type 0
CertRotationConfig = CertRotationConfigOf ℕ

abbrev pub by_kind : CertKind → String → String → String
by_kind signing a b = a
by_kind encryption a b = b

abbrev pub or_else : Option Number → Number → Number
or_else none x = x
or_else (some y) x = y

abbrev pub is_true_text : Option Text → Bool
is_true_text none = false
is_true_text (some raw) = text_beq raw (codes "true") || text_beq raw (codes "1")

pub cert_rotation_config : (Text → Option Number) → Environment → CertRotationConfigOf Number
cert_rotation_config number_of env = record {
  tick_ms = bounded_int number_of env "CERT_ROTATION_SCHEDULER_TICK_MS" 3_600_000 0 day_ms;
  lead_days = λ kind.
      or_else
        (optional_int number_of env
          (by_kind kind "CERT_ROTATION_SIGNING_LEAD_DAYS" "CERT_ROTATION_ENCRYPTION_LEAD_DAYS") 1
          365)
        (bounded_int number_of env "CERT_ROTATION_LEAD_DAYS" 30 1 365);
  overlap_days = λ kind.
      or_else
        (optional_int number_of env
          (by_kind kind "CERT_ROTATION_SIGNING_OVERLAP_DAYS"
            "CERT_ROTATION_ENCRYPTION_OVERLAP_DAYS")
          0 90)
        (bounded_int number_of env "CERT_ROTATION_OVERLAP_DAYS" 7 0 90);
  validity_days = bounded_int number_of env "CERT_ROTATION_VALIDITY_DAYS" 365 1 3650;
  notify_lead_days = bounded_int number_of env "CERT_ROTATION_NOTIFY_LEAD_DAYS" 45 1 730;
  jitter_max_seconds = bounded_int number_of env "CERT_ROTATION_JITTER_MAX_SECONDS" 0 0 86_400;
  boot_grace_hours = bounded_int number_of env "CERT_ROTATION_BOOT_GRACE_HOURS" 0 0 168;
  failure_autodisable_threshold =
      bounded_int number_of env "CERT_ROTATION_FAILURE_AUTODISABLE_THRESHOLD" 5 0 100;
  dry_run = is_true_text (env "CERT_ROTATION_DRY_RUN");
}
