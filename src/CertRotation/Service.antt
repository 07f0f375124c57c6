-- ===== src/CertRotation/Service.antt =====
-- apps/api/src/idp-settings/services/idp-settings.service.ts: the settings and the rotation by hand.
-- The generation and the validation of certificates, whose errors reach the caller as bad requests,
-- the encryption of keys and the validation of the settings are parameters.
use nest_id_p.Sync.Errors.{says, Exception, Outcome, done, threw, conflict_error, bad_request_error}
use nest_id_p.CertRotation.{
  CertKind, signing, encryption, Slot, IdpSettings, State, CertPair, CertEvent, settings_updated,
  auto_rotation_setting_changed, cert_generated, rotation_started_generate, cert_uploaded,
  rotation_started_upload, rotation_completed, rotation_cancelled, clear_pending_data,
  complete_data, find_settings_or_throw, log_event, settings_missing, write, change_slot,
  has_active, has_pending, finish_or_cancel_first, need_primary_first, no_rotation_in_progress,
  primary_data, rotation_in_progress, pending_data,
}
use nest_id_p.Base.{
  ℕ, ◌+◌, String, Bool, true, false, not, Option, none, some, List, [], ◌∷◌, ◌++◌, leb,
  if◌then◌else◌, length,
}
use nest_id_p.Base.Eq.{nat_eq, string_eq}

pub record Crypto (Options : Type 0) : Type 0 where
  pub generate : CertKind → String → Options → Outcome CertPair
  pub validate : CertKind → String → String → Option String → Outcome CertPair
  pub encrypt : String → String
  pub valid_entity_id : String → Outcome String
  pub valid_name_id_format : String → Outcome String

pub record UpdateIdpSettings : Type 0 where
  pub entity_id : Option String
  pub name_id_format : Option String
  pub want_authn_requests_signed : Option Bool
  pub auto_rotate : CertKind → Option Bool

-- What a rotation starts from.
pub data RotationSource (Options : Type 0) : Type 0 where
  by_generation : Options → RotationSource Options
  by_upload : String → String → RotationSource Options

abbrev pub is_given : {A : Type 0} → Option A → Bool
is_given none = false
is_given (some a) = true

abbrev pub or_same : {A : Type 0} → Option A → A → A
or_same none a = a
or_same (some b) a = b

abbrev pub named : Bool → String → List String
named true field = field ∷ []
named false field = []

-- A toggle; turning the rotation on clears what its failures left.
abbrev pub toggled : Option Bool → Slot → Slot
toggled none s = s
toggled (some false) s = record s { auto_rotate_enabled = false }
toggled (some true) s = record s {
  auto_rotate_enabled = true;
  consecutive_failures = 0;
  disabled_at = none;
  last_error = none;
}

abbrev pub audited : List String → (List String → CertEvent) → State → State
audited [] event s = s
audited (f ∷ fs) event s = log_event (event (f ∷ fs)) s

-- An optional field that is validated.
abbrev pub validated : (String → Outcome String) → Option String → Outcome (Option String)
validated valid none = done none
validated valid (some text) = elim (valid text) [ threw x ↦ threw x | done v ↦ done (some v) ]

module _ {Options : Type 0} (crypto : Crypto Options) where
  pub get_settings : State → State × Outcome IdpSettings
  get_settings s = (s, find_settings_or_throw s)

  abbrev pub changes : UpdateIdpSettings → Option String → Option String → IdpSettings → IdpSettings
  changes body entity_id name_id_format r = record r {
    entity_id = or_same entity_id r.entity_id;
    name_id_format = or_same name_id_format r.name_id_format;
    want_authn_requests_signed =
        or_same body.want_authn_requests_signed r.want_authn_requests_signed;
    slots = λ kind. toggled (body.auto_rotate kind) (r.slots kind);
  }

  abbrev pub updated_fields : UpdateIdpSettings → List String
  updated_fields body =
      named (is_given body.entity_id) "entityId"
      ++ (named (is_given body.name_id_format) "nameIdFormat"
          ++ named (is_given body.want_authn_requests_signed) "wantAuthnRequestsSigned")

  abbrev pub auto_rotation_fields : UpdateIdpSettings → List String
  auto_rotation_fields body =
      named (is_given (body.auto_rotate signing)) "autoRotateSigningEnabled"
      ++ named (is_given (body.auto_rotate encryption)) "autoRotateEncryptionEnabled"

  abbrev pub log_update :
      UpdateIdpSettings → State × Outcome IdpSettings → State × Outcome IdpSettings
  log_update body (s, threw x) = (s, threw x)
  log_update body (s, done r) = (
    audited (auto_rotation_fields body) auto_rotation_setting_changed
        (audited (updated_fields body) settings_updated s),
    done r,
  )

  unfoldable pub update_settings : UpdateIdpSettings → State → State × Outcome IdpSettings
  update_settings body s =
      if leb (length (updated_fields body) + length (auto_rotation_fields body)) 0
      then (s, threw (bad_request_error (says "At least one field is required")))
      else (elim (validated crypto.valid_entity_id body.entity_id) [
        | threw x ↦ (s, threw x)
        | done entity_id ↦ elim (validated crypto.valid_name_id_format body.name_id_format) [
          | threw x ↦ (s, threw x)
          | done name_id_format ↦ log_update body (write (changes body entity_id name_id_format) s)
        ]
      ])

  -- An event, once a write has succeeded.
  abbrev pub log_done : CertEvent → State × Outcome IdpSettings → State × Outcome IdpSettings
  log_done event (s, threw x) = (s, threw x)
  log_done event (s, done r) = (log_event event s, done r)

  abbrev pub write_primary : CertKind → CertPair → CertEvent → State → State × Outcome IdpSettings
  write_primary kind pair event s = log_done event (
      write
        (change_slot kind
          (primary_data pair.cert_pem (crypto.encrypt pair.private_key_pem) pair.crypto))
        s)

  -- `generatePrimaryCert` and `generatePrimaryEncryptionCert`.
  unfoldable pub generate_primary_cert : CertKind → Options → State → State × Outcome IdpSettings
  generate_primary_cert kind options s = elim s.row [
    | none ↦ (s, threw settings_missing)
    | some r ↦
        if has_pending (r.slots kind)
        then (s, threw (finish_or_cancel_first kind))
        else (elim (crypto.generate kind r.entity_id options) [
          | threw x ↦ (s, threw x)
          | done pair ↦ write_primary kind pair (cert_generated kind pair.crypto) s
        ])
  ]

  -- `uploadPrimaryCert` and `uploadPrimaryEncryptionCert`.
  unfoldable pub upload_primary_cert :
      CertKind → String → String → State → State × Outcome IdpSettings
  upload_primary_cert kind cert key s = elim s.row [
    | none ↦ (s, threw settings_missing)
    | some r ↦
        if has_pending (r.slots kind)
        then (s, threw (finish_or_cancel_first kind))
        else (elim (crypto.validate kind cert key (r.slots signing).cert_pem) [
          | threw x ↦ (s, threw x)
          | done pair ↦ write_primary kind pair (cert_uploaded kind) s
        ])
  ]

  -- The pair that a rotation starts with, and the event, which is logged before the write.
  abbrev pub obtain :
      CertKind → IdpSettings → RotationSource Options → Outcome (CertPair × CertEvent)
  obtain kind r (by_generation options) = elim (crypto.generate kind r.entity_id options) [
    | threw x ↦ threw x
    | done pair ↦ done (pair, rotation_started_generate kind pair.crypto)
  ]
  obtain kind r (by_upload cert key) =
      elim (crypto.validate kind cert key (r.slots signing).cert_pem) [
        | threw x ↦ threw x
        | done pair ↦ done (pair, rotation_started_upload kind)
      ]

  -- `startRotation` and `startEncryptionRotation`.
  unfoldable pub start_rotation :
      CertKind → RotationSource Options → ℕ → State → State × Outcome IdpSettings
  start_rotation kind from now s = elim s.row [
    | none ↦ (s, threw settings_missing)
    | some r ↦
        if not (has_active (r.slots kind))
        then (s, threw (need_primary_first kind))
        else if has_pending (r.slots kind)
        then (s, threw (rotation_in_progress kind))
        else (elim (obtain kind r from) [
          | threw x ↦ (s, threw x)
          | done (pair, event) ↦
              write
                (change_slot kind (
                  pending_data pair.cert_pem (crypto.encrypt pair.private_key_pem) pair.crypto now))
                (log_event event s)
        ])
  ]

abbrev pub check_in_flight : Exception
check_in_flight =
    conflict_error (says "Automatic certificate rotation check is in progress — retry in a moment")

-- `completeRotationFor` and `cancelRotationFor` differ in what they write and log.
unfoldable pub end_rotation :
    (Slot → Slot) → CertEvent → CertKind → State → State × Outcome IdpSettings
end_rotation change event kind s =
    if s.auto_rotation_in_flight then (s, threw check_in_flight) else (elim s.row [
      | none ↦ (s, threw settings_missing)
      | some r ↦
          if not (has_pending (r.slots kind)) then (s, threw (no_rotation_in_progress kind)) else (
            record s { row = some (change_slot kind change r); audit = s.audit ++ event ∷ [] },
            done (change_slot kind change r),
          )
    ])

unfoldable pub complete_rotation : CertKind → State → State × Outcome IdpSettings
unfolding end_rotation
complete_rotation kind s = end_rotation complete_data (rotation_completed kind) kind s

unfoldable pub cancel_rotation : CertKind → State → State × Outcome IdpSettings
unfolding end_rotation
cancel_rotation kind s = end_rotation clear_pending_data (rotation_cancelled kind) kind s
