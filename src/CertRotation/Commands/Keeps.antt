-- ===== src/CertRotation/Commands/Keeps.antt =====
-- What the requests on settings and certificates keep of a slot.
use nest_id_p.CertRotation.Held.{
  IsSound, Held, RowHeld, toggled-Held, change_slot-Held, primary_data-Held, pending_data-Held,
}
use mathlib.Core.Path.{subst}
use nest_id_p.Sync.Errors.{Outcome, done, threw, Outcome-cases}
use nest_id_p.CertRotation.{
  CertKind, signing, IdpSettings, Slot, State, CertPair, CertEvent, write, change_slot,
  settings_updated, auto_rotation_setting_changed, has_pending, cert_generated, primary_data,
  cert_uploaded, has_active, pending_data, log_event,
}
use nest_id_p.CertRotation.Service.{
  Crypto, UpdateIdpSettings, update_settings, validated, audited, log_update, auto_rotation_fields,
  updated_fields, changes, generate_primary_cert, log_done, write_primary, RotationSource,
  end_rotation, start_rotation, upload_primary_cert, obtain, by_generation, by_upload,
}
use nest_id_p.CertRotation.Config.{CertRotationConfig}
use nest_id_p.CertRotation.Auto.{Reader}
use nest_id_p.Base.{
  ℕ, ◌+◌, ◌≡◌, inl, inr, refl, sym, ap, ◌∙◌, String, Bool, true, false, Option, List, [], ◌∷◌,
  arith, leb, length, Bool-cases, Option-cases,
}
use nest_id_p.Base.Eq.{nat_eq, string_eq}
use nest_id_p.Base.Maps.{set}
use nest_id_p.Base.Text.{is_empty}

audited-row :
    (fields : List String) (event : List String → CertEvent) (s : State)
    → (audited fields event s).row ≡ s.row
audited-row [] event s = refl
audited-row (f ∷ fs) event s = refl

module _ {Options : Type 0} (crypto : Crypto Options) (reader : Reader Options)
    (config : CertRotationConfig) (sound : IsSound crypto) (kind : CertKind) (active : Bool) where
  pub write-RowHeld :
      (change : IdpSettings → IdpSettings) (s : State)
      → ((r : IdpSettings) → Held active (r.slots kind) → Held active ((change r).slots kind))
      → RowHeld kind active s.row
      → RowHeld kind active (write change s).0.row
  write-RowHeld change s kept h = elim (Option-cases s.row) [
    | inl e ↦ rw e tt
    | inr (r, e) ↦ let held = rw e at h in rw e (kept r held)
  ]

  log_update-row :
      (body : UpdateIdpSettings) (v : State × Outcome IdpSettings)
      → (log_update crypto body v).0.row ≡ v.0.row
  log_update-row body (s, threw x) = refl
  log_update-row body (s, done r) =
      audited-row (auto_rotation_fields crypto body) auto_rotation_setting_changed
        (audited (updated_fields crypto body) settings_updated s)
      ∙ audited-row (updated_fields crypto body) settings_updated s

  pub update_settings-RowHeld :
      (body : UpdateIdpSettings) (s : State)
      → RowHeld kind active s.row
      → RowHeld kind active (update_settings crypto body s).0.row
  unfolding update_settings
  update_settings-RowHeld body s h =
      elim (Bool-cases
        (leb (length (updated_fields crypto body) + length (auto_rotation_fields crypto body)) 0)) [
          | inl b ↦ rw (b, update_settings) h
          | inr b ↦ elim (Outcome-cases (validated crypto.valid_entity_id body.entity_id)) [
            | inr (x, e) ↦ rw (b, e, update_settings) h
            | inl (i, e) ↦
                elim (Outcome-cases (validated crypto.valid_name_id_format body.name_id_format)) [
                  | inr (x, f) ↦ rw (b, e, f, update_settings) h
                  | inl (n, f) ↦
                      rw (b, e, f, update_settings)
                        (subst (λ (o : Option IdpSettings). RowHeld kind active o)
                          (sym (log_update-row body (write (changes crypto body i n) s)))
                          (write-RowHeld (changes crypto body i n) s
                            (λ r. toggled-Held active (body.auto_rotate kind) (r.slots kind)) h))
                ]
          ]
        ]

  log_done-row :
      (event : CertEvent) (v : State × Outcome IdpSettings)
      → (log_done crypto event v).0.row ≡ v.0.row
  log_done-row event (s, threw x) = refl
  log_done-row event (s, done r) = refl

  -- A pair with a certificate goes into a slot.
  write_primary-RowHeld :
      (k : CertKind) (p : CertPair) (event : CertEvent) (s : State)
      → is_empty p.cert_pem ≡ false
      → RowHeld kind active s.row
      → RowHeld kind active (write_primary crypto k p event s).0.row
  write_primary-RowHeld k p event s set h =
      let key = crypto.encrypt p.private_key_pem in
      subst (λ (o : Option IdpSettings). RowHeld kind active o)
        (sym (log_done-row event (write (change_slot k (primary_data p.cert_pem key p.crypto)) s)))
        (write-RowHeld (change_slot k (primary_data p.cert_pem key p.crypto)) s
          (λ r. change_slot-Held active k kind (primary_data p.cert_pem key p.crypto) r (
            primary_data-Held active p.cert_pem key p.crypto (r.slots k) set
              (sound.encrypted p.private_key_pem)))
          h)

  pub generate_primary_cert-RowHeld :
      (k : CertKind) (options : Options) (s : State)
      → RowHeld kind active s.row
      → RowHeld kind active (generate_primary_cert crypto k options s).0.row
  unfolding generate_primary_cert
  generate_primary_cert-RowHeld k options s h = elim (Option-cases s.row) [
    | inl e ↦ rw (e, generate_primary_cert) h
    | inr (r, e) ↦ elim (Bool-cases (has_pending (r.slots k))) [
      | inl b ↦ rw (e, generate_primary_cert, b) h
      | inr b ↦ elim (Outcome-cases (crypto.generate k r.entity_id options)) [
        | inr (x, g) ↦ rw (e, generate_primary_cert, b, g) h
        | inl (p, g) ↦
            rw (e, generate_primary_cert, b, g)
              (write_primary-RowHeld k p (cert_generated k p.crypto) s
                (sound.generated k r.entity_id options p g) h)
      ]
    ]
  ]

  pub upload_primary_cert-RowHeld :
      (k : CertKind) (cert key : String) (s : State)
      → RowHeld kind active s.row
      → RowHeld kind active (upload_primary_cert crypto k cert key s).0.row
  unfolding upload_primary_cert
  upload_primary_cert-RowHeld k cert key s h = elim (Option-cases s.row) [
    | inl e ↦ rw (e, upload_primary_cert) h
    | inr (r, e) ↦ elim (Bool-cases (has_pending (r.slots k))) [
      | inl b ↦ rw (e, upload_primary_cert, b) h
      | inr b ↦ elim (Outcome-cases (crypto.validate k cert key (r.slots signing).cert_pem)) [
        | inr (x, g) ↦ rw (e, upload_primary_cert, b, g) h
        | inl (p, g) ↦
            rw (e, upload_primary_cert, b, g)
              (write_primary-RowHeld k p (cert_uploaded k) s
                (sound.validated k cert key (r.slots signing).cert_pem p g) h)
      ]
    ]
  ]

  obtain-set :
      (k : CertKind) (r : IdpSettings) (from : RotationSource Options) (p : CertPair)
      (event : CertEvent)
      → obtain crypto k r from ≡ done (p, event)
      → is_empty p.cert_pem ≡ false
  obtain-set k r (by_generation options) p event e =
      elim (Outcome-cases (crypto.generate k r.entity_id options)) [
        | inr (x, g) ↦ let z = rw (obtain, g) at e in ground (arith, z)
        | inl (q, g) ↦
            let z = rw (obtain, g) at e in
            let same : q ≡ p = ground (arith, z) in
            ap (λ (c : CertPair). is_empty c.cert_pem) (sym same)
            ∙ sound.generated k r.entity_id options q g
      ]
  obtain-set k r (by_upload cert key) p event e =
      elim (Outcome-cases (crypto.validate k cert key (r.slots signing).cert_pem)) [
        | inr (x, g) ↦ let z = rw (obtain, g) at e in ground (arith, z)
        | inl (q, g) ↦
            let z = rw (obtain, g) at e in
            let same : q ≡ p = ground (arith, z) in
            ap (λ (c : CertPair). is_empty c.cert_pem) (sym same)
            ∙ sound.validated k cert key (r.slots signing).cert_pem q g
      ]

  pub start_rotation-RowHeld :
      (k : CertKind) (from : RotationSource Options) (now : ℕ) (s : State)
      → RowHeld kind active s.row
      → RowHeld kind active (start_rotation crypto k from now s).0.row
  unfolding start_rotation
  start_rotation-RowHeld k from now s h = elim (Option-cases s.row) [
    | inl e ↦ rw (e, start_rotation) h
    | inr (r, e) ↦ elim (Bool-cases (has_active (r.slots k))) [
      | inr a ↦ rw (e, start_rotation, a) h
      | inl a ↦ elim (Bool-cases (has_pending (r.slots k))) [
        | inl b ↦ rw (e, start_rotation, a, b) h
        | inr b ↦ elim (Outcome-cases (obtain crypto k r from)) [
          | inr (x, g) ↦ rw (e, start_rotation, a, b, g) h
          | inl ((p, event), g) ↦
              let key = crypto.encrypt p.private_key_pem in
              rw (e, start_rotation, a, b, g)
                (write-RowHeld (change_slot k (pending_data p.cert_pem key p.crypto now))
                  (log_event event s)
                  (λ r2.
                    change_slot-Held active k kind (pending_data p.cert_pem key p.crypto now) r2 (
                      pending_data-Held active p.cert_pem key p.crypto now (r2.slots k)
                        (obtain-set k r from p event g) (sound.encrypted p.private_key_pem)))
                  h)
        ]
      ]
    ]
  ]

  pub end_rotation-RowHeld :
      (change : Slot → Slot) (event : CertEvent) (k : CertKind) (s : State)
      → ((slot : Slot) → has_pending slot ≡ true → Held active slot → Held active (change slot))
      → RowHeld kind active s.row
      → RowHeld kind active (end_rotation change event k s).0.row
  unfolding end_rotation
  end_rotation-RowHeld change event k s kept h = elim (Bool-cases s.auto_rotation_in_flight) [
    | inl f ↦ rw (f, end_rotation) h
    | inr f ↦ elim (Option-cases s.row) [
      | inl e ↦ rw (f, end_rotation, e) h
      | inr (r, e) ↦ elim (Bool-cases (has_pending (r.slots k))) [
        | inr b ↦ rw (f, end_rotation, e, b) h
        | inl b ↦
            let held = rw e at h in
            rw (f, end_rotation, e, b)
              (change_slot-Held active k kind change r (kept (r.slots k) b) held)
      ]
    ]
  ]
