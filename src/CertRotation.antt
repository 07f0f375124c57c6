-- ===== src/CertRotation.antt =====
-- The settings of the identity provider, apps/api/src/idp-settings: the row IdpSettings of
-- apps/api/prisma/schema.prisma and its certificates, which the source keeps in columns of the same
-- shape for signing and for encryption, through the descriptors of cert-kind/cert-kind-
-- descriptor.ts. Each kind has a slot here. Keys stand encrypted.
pub mod Config
pub mod Service
pub mod Auto
pub mod Held
pub mod Rotates
pub mod Commands
use nest_id_p.Sync.Errors.{
  Message, says, Exception, Outcome, done, threw, conflict_error, not_found_error,
  bad_request_error, other_error,
}
use nest_id_p.Base.Text.{is_empty}
use nest_id_p.Base.{
  ℕ, zero, suc, ◌+◌, ◌-◌, ◌*◌, ◌^◌, ◌≤◌, ◌<◌, ◌≡◌, ◌≢◌, ◌↔◌, ◌⊎◌, inl, inr, refl, sym, ap, ◌∙◌, min,
  max, String, Bool, true, false, not, ◌&&◌, ◌||◌, Option, none, some, List, [], ◌∷◌, ◌++◌, map,
  arith, leb, ltb, nat_beq, if◌then◌else◌, length, take, keep, All, Bool-cases, Option-cases,
}
use nest_id_p.Base.Eq.{Eq, ◌==◌, nat_eq, string_eq, contains, beq_refl, beq-false}
use nest_id_p.Base.Maps.{Map, get, set, delete, retain}
use nest_id_p.Base.Text.{Text, codes}

pub data CertKind : Type 0 where
  signing encryption : CertKind

-- The columns on the algorithm of a certificate.
pub record CryptoColumns : Type 0 where
  pub key_family : Option String
  pub algorithm_id : Option String
  pub rsa_modulus_bits : Option ℕ
  pub ec_curve : Option String

abbrev pub no_crypto : CryptoColumns
no_crypto = record {
  key_family = none;
  algorithm_id = none;
  rsa_modulus_bits = none;
  ec_curve = none;
}

pub record Slot : Type 0 where
  pub cert_pem : Option String
  pub key_encrypted : Option String
  pub crypto : CryptoColumns
  pub pending_cert_pem : Option String
  pub pending_key_encrypted : Option String
  pub pending_crypto : CryptoColumns
  pub rotation_started_at : Option ℕ
  pub auto_rotate_enabled : Bool
  pub last_error : Option Message
  pub consecutive_failures : ℕ
  pub disabled_at : Option ℕ

pub record IdpSettings : Type 0 where
  pub entity_id : String
  pub name_id_format : String
  pub want_authn_requests_signed : Bool
  pub slots : CertKind → Slot
  pub last_auto_rotation_check_at : Option ℕ
  pub last_auto_rotation_action_at : Option ℕ

abbrev pub at_kind : {A : Type 0} → CertKind → A → (CertKind → A) → CertKind → A
at_kind signing a f signing = a
at_kind signing a f encryption = f encryption
at_kind encryption a f signing = f signing
at_kind encryption a f encryption = a

abbrev pub change_slot : CertKind → (Slot → Slot) → IdpSettings → IdpSettings
change_slot kind change s = record s { slots = at_kind kind (change (s.slots kind)) s.slots }

-- `Boolean` of a column with text: the empty text does not count.
abbrev pub is_set : Option String → Bool
is_set none = false
is_set (some text) = not (is_empty text)

abbrev pub has_active : Slot → Bool
has_active s = is_set s.cert_pem && is_set s.key_encrypted

abbrev pub has_pending : Slot → Bool
has_pending s = is_set s.pending_cert_pem || is_set s.pending_key_encrypted

-- What a generator or a validation answers.
pub record CertPair : Type 0 where
  pub cert_pem : String
  pub private_key_pem : String
  pub crypto : CryptoColumns

abbrev pub primary_data : String → String → CryptoColumns → Slot → Slot
primary_data cert key crypto s = record s {
  cert_pem = some cert;
  key_encrypted = some key;
  crypto = crypto;
}

abbrev pub pending_data : String → String → CryptoColumns → ℕ → Slot → Slot
pending_data cert key crypto started_at s = record s {
  pending_cert_pem = some cert;
  pending_key_encrypted = some key;
  pending_crypto = crypto;
  rotation_started_at = some started_at;
}

abbrev pub clear_pending_data : Slot → Slot
clear_pending_data s = record s {
  pending_cert_pem = none;
  pending_key_encrypted = none;
  pending_crypto = no_crypto;
  rotation_started_at = none;
}

abbrev pub complete_data : Slot → Slot
complete_data s = record (clear_pending_data s) {
  cert_pem = s.pending_cert_pem;
  key_encrypted = s.pending_key_encrypted;
  crypto = s.pending_crypto;
}

-- The messages of the conflicts.
abbrev pub need_primary_first : CertKind → Exception
need_primary_first signing =
    conflict_error (says "Configure or generate primary signing certificate first")
need_primary_first encryption =
    conflict_error (says "Configure or generate primary encryption certificate first")

abbrev pub rotation_in_progress : CertKind → Exception
rotation_in_progress signing = conflict_error (says "Certificate rotation already in progress")
rotation_in_progress encryption =
    conflict_error (says "Encryption certificate rotation already in progress")

abbrev pub finish_or_cancel_first : CertKind → Exception
finish_or_cancel_first signing = conflict_error (says "Finish or cancel certificate rotation first")
finish_or_cancel_first encryption =
    conflict_error (says "Finish or cancel encryption certificate rotation first")

abbrev pub no_rotation_in_progress : CertKind → Exception
no_rotation_in_progress signing = conflict_error (says "No certificate rotation in progress")
no_rotation_in_progress encryption =
    conflict_error (says "No encryption certificate rotation in progress")

pub data CertEvent : Type 0 where
  settings_updated auto_rotation_setting_changed : List String → CertEvent
  cert_generated rotation_started_generate : CertKind → CryptoColumns → CertEvent
  cert_uploaded rotation_started_upload rotation_completed rotation_cancelled : CertKind → CertEvent
  auto_rotation_check_run : Bool → CertEvent
  active_cert_unparseable : CertKind → CertEvent
  auto_rotation_deferred_boot auto_rotation_due_soon : CertKind → ℕ → CertEvent
  auto_rotation_started auto_rotation_completed : CertKind → Bool → CertEvent
  auto_rotation_failed : CertKind → Message → ℕ → CertEvent
  auto_rotation_autodisabled : CertKind → ℕ → CertEvent

pub data CertNotice : Type 0 where
  on_due_soon : CertKind → ℕ → CertNotice
  on_started on_completed : CertKind → Bool → CertNotice
  on_failed : CertKind → Message → CertNotice

-- The row, which may be missing, and what the service holds beside it.
pub record State : Type 0 where
  pub row : Option IdpSettings
  pub auto_rotation_in_flight : Bool
  pub unparseable_cert_audited : List String
  pub due_soon_notified_not_after : CertKind → Option ℕ
  pub audit : List CertEvent
  pub notices : List CertNotice

abbrev pub log_event : CertEvent → State → State
log_event e s = record s { audit = s.audit ++ e ∷ [] }

abbrev pub notify : CertNotice → State → State
notify n s = record s { notices = s.notices ++ n ∷ [] }

abbrev pub settings_missing : Exception
settings_missing = not_found_error (says "IdP settings not configured")

-- `findSettingsOrThrow`.
abbrev pub find_settings_or_throw : State → Outcome IdpSettings
find_settings_or_throw s = elim s.row [ none ↦ threw settings_missing | some r ↦ done r ]

-- `prisma.idpSettings.update`, which throws where the row is missing.
abbrev pub write : (IdpSettings → IdpSettings) → State → State × Outcome IdpSettings
write change s = elim s.row [
  | none ↦ (s, threw (other_error (says "record not found")))
  | some r ↦ (record s { row = some (change r) }, done (change r))
]
