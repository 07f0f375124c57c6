-- ===== src/CertRotation/Rotates.antt =====
-- The automatic rotation replaces a certificate before it ends.
use nest_id_p.Base.{le→leb, if-true}
use nest_id_p.Base.Text.{is_empty}
use nest_id_p.Sync.Errors.{Outcome, done}
use nest_id_p.AuthProtection.Config.{day_ms}
use nest_id_p.CertRotation.{
  CertKind, signing, encryption, IdpSettings, Slot, State, CertPair, change_slot, pending_data,
  complete_data, at_kind, has_pending,
}
use nest_id_p.CertRotation.Service.{Crypto}
use nest_id_p.CertRotation.Config.{CertRotationConfig}
use nest_id_p.CertRotation.Auto.{
  Reader, scheduled, evaluate_auto_rotation_for_kind, evaluate_cert, evaluate_active,
  auto_start_kind, auto_complete_kind, effective_overlap_days, clear_failure_data, with_action,
  not_after_from_days,
}
use nest_id_p.Base.{
  ℕ, ◌+◌, ◌*◌, ◌≤◌, ◌<◌, ◌≡◌, ◌⊎◌, inl, inr, refl, ap, ◌∙◌, String, true, false, none, some, arith,
  leb,
}
use nest_id_p.Base.Eq.{nat_eq, string_eq}
use nest_id_p.Base.Maps.{set}

at_kind-same : {A : Type 0} (k : CertKind) (a : A) (f : CertKind → A) → at_kind k a f k ≡ a
at_kind-same signing a f = refl
at_kind-same encryption a f = refl

-- A kind is rotated automatically, and has an active certificate.
pub record IsRotated (slot : Slot) (cert : String) : Type 0 where
  pub enabled : slot.auto_rotate_enabled ≡ true
  pub not_disabled : slot.disabled_at ≡ none
  pub has_cert : slot.cert_pem ≡ some cert
  pub cert_set : is_empty cert ≡ false

module _ {Options : Type 0} (crypto : Crypto Options) (reader : Reader Options)
    (config : CertRotationConfig) (k : CertKind) where
  abbrev pub renewal : IdpSettings → ℕ → Options
  renewal r now =
      reader.same_options (r.slots k).crypto (not_after_from_days config.validity_days now)

  abbrev pub started_row : IdpSettings → CertPair → ℕ → IdpSettings
  started_row r p now = with_action now (
      change_slot k
        (λ slot.
          clear_failure_data
            (pending_data p.cert_pem (crypto.encrypt p.private_key_pem) p.crypto now slot))
        r)

  evaluate-cert :
      (r : IdpSettings) (s : State) (cert : String) (now : ℕ)
      → IsRotated (r.slots k) cert
      → evaluate_auto_rotation_for_kind crypto reader config k r now scheduled false s
        ≡ evaluate_cert crypto reader config k r cert now scheduled false s
  unfolding evaluate_auto_rotation_for_kind
  evaluate-cert r s cert now rotated =
      rw
        (
          rotated.enabled, evaluate_auto_rotation_for_kind, rotated.not_disabled, rotated.has_cert,
          rotated.cert_set,
        )
        refl

  evaluate_cert-active :
      (r : IdpSettings) (s : State) (cert : String) (now : ℕ)
      → (r.slots k).pending_cert_pem ≡ none
      → evaluate_cert crypto reader config k r cert now scheduled false s
        ≡ evaluate_active crypto reader config k r cert now scheduled false s
  unfolding evaluate_cert
  evaluate_cert-active r s cert now no_pending = rw (no_pending, evaluate_cert) refl

  evaluate_cert_complete :
      (r : IdpSettings) (s : State) (cert pending : String) (started_at now : ℕ)
      → (r.slots k).pending_cert_pem ≡ some pending
      → is_empty pending ≡ false
      → (r.slots k).rotation_started_at ≡ some started_at
      → started_at + effective_overlap_days crypto reader config k cert now * day_ms ≤ now
      → evaluate_cert crypto reader config k r cert now scheduled false s
        ≡ auto_complete_kind crypto reader config k now false s
  unfolding evaluate_cert
  evaluate_cert_complete r s cert pending started_at now is_pending set at elapsed =
      rw (is_pending, evaluate_cert, set, at)
        (if-true
          (leb (started_at + effective_overlap_days crypto reader config k cert now * day_ms) now) _
          _
          (le→leb (started_at + effective_overlap_days crypto reader config k cert now * day_ms) now
            elapsed))

  evaluate_active-start :
      (r : IdpSettings) (s : State) (cert : String) (t now : ℕ)
      → reader.not_after cert ≡ some t
      → t ≤ now + config.lead_days k * day_ms
      → evaluate_active crypto reader config k r cert now scheduled false s
        ≡ auto_start_kind crypto reader config k r now false s
  unfolding evaluate_active
  evaluate_active-start r s cert t now ends due =
      rw (ends, evaluate_active)
        (if-true (leb t (now + config.lead_days k * day_ms)) _ _
          (le→leb t (now + config.lead_days k * day_ms) due))

  auto_start_kind-row :
      (r : IdpSettings) (s : State) (p : CertPair) (now : ℕ)
      → s.row ≡ some r
      → crypto.generate k r.entity_id (renewal r now) ≡ done p
      → ((auto_start_kind crypto reader config k r now false s).1 ≡ done (started_row r p now))
        × ((auto_start_kind crypto reader config k r now false s).0.row
            ≡ some (started_row r p now))
  unfolding auto_start_kind
  auto_start_kind-row r s p now row generated = rw (generated, auto_start_kind, row) (refl, refl)

  evaluate-starts :
      (r : IdpSettings) (s : State) (cert : String) (p : CertPair) (t now : ℕ)
      → s.row ≡ some r
      → IsRotated (r.slots k) cert
      → (r.slots k).pending_cert_pem ≡ none
      → reader.not_after cert ≡ some t
      → t ≤ now + config.lead_days k * day_ms
      → crypto.generate k r.entity_id (renewal r now) ≡ done p
      → ((evaluate_auto_rotation_for_kind crypto reader config k r now scheduled false s).1
          ≡ done (started_row r p now))
        × ((evaluate_auto_rotation_for_kind crypto reader config k r now scheduled false s).0.row
            ≡ some (started_row r p now))
  evaluate-starts r s cert p t now row rotated no_pending ends due generated =
      let same =
        evaluate-cert r s cert now rotated
        ∙ evaluate_cert-active r s cert now no_pending
        ∙ evaluate_active-start r s cert t now ends due in
      let (answer, stored) = auto_start_kind-row r s p now row generated in
      (
        ap (λ (v : State × Outcome IdpSettings). v.1) same ∙ answer,
        ap (λ (v : State × Outcome IdpSettings). v.0.row) same ∙ stored,
      )

  abbrev pub promoted_row : IdpSettings → ℕ → IdpSettings
  promoted_row r now =
      with_action now (change_slot k (λ slot. clear_failure_data (complete_data slot)) r)

  auto_complete_kind-row :
      (r : IdpSettings) (s : State) (pending : String) (now : ℕ)
      → s.row ≡ some r
      → (r.slots k).pending_cert_pem ≡ some pending
      → is_empty pending ≡ false
      → ((auto_complete_kind crypto reader config k now false s).1 ≡ done (promoted_row r now))
        × ((auto_complete_kind crypto reader config k now false s).0.row
            ≡ some (promoted_row r now))
  unfolding auto_complete_kind
  auto_complete_kind-row r s pending now row is_pending set =
      let has : has_pending (r.slots k) ≡ true = rw (is_pending, set) refl in
      rw (row, auto_complete_kind, has) (refl, refl)

  evaluate-completes :
      (r : IdpSettings) (s : State) (cert pending : String) (started_at now : ℕ)
      → s.row ≡ some r
      → IsRotated (r.slots k) cert
      → (r.slots k).pending_cert_pem ≡ some pending
      → is_empty pending ≡ false
      → (r.slots k).rotation_started_at ≡ some started_at
      → started_at + effective_overlap_days crypto reader config k cert now * day_ms ≤ now
      → ((evaluate_auto_rotation_for_kind crypto reader config k r now scheduled false s).1
          ≡ done (promoted_row r now))
        × ((evaluate_auto_rotation_for_kind crypto reader config k r now scheduled false s).0.row
            ≡ some (promoted_row r now))
  evaluate-completes r s cert pending started_at now row rotated is_pending set at elapsed =
      let same =
        evaluate-cert r s cert now rotated
        ∙ evaluate_cert_complete r s cert pending started_at now is_pending set at elapsed in
      let (answer, stored) = auto_complete_kind-row r s pending now row is_pending set in
      (
        ap (λ (v : State × Outcome IdpSettings). v.1) same ∙ answer,
        ap (λ (v : State × Outcome IdpSettings). v.0.row) same ∙ stored,
      )

  -- The overlap is over where the configured days have passed, or where the certificate has less
  -- than a whole day left.
  effective_overlap-elapsed :
      (cert : String) (t started_at now : ℕ)
      → reader.not_after cert ≡ some t
      → started_at ≤ now
      → ((started_at + config.overlap_days k * day_ms ≤ now) ⊎ (t < now + day_ms))
      → started_at + effective_overlap_days crypto reader config k cert now * day_ms ≤ now
  unfolding effective_overlap_days
  effective_overlap-elapsed cert t started_at now ends le (inl h) =
      rw (ends, effective_overlap_days) (omega (arith, h))
  effective_overlap-elapsed cert t started_at now ends le (inr h) =
      rw (ends, effective_overlap_days) (omega (arith, le, h))

  -- A kind that is rotated automatically and has no rotation under way, whose certificate ends
  -- within the lead time, is rotated by two scheduled evaluations, where the generation of a
  -- certificate succeeds: the first keeps the certificate active and makes the new one pending, and
  -- the second makes the new one active with its key and leaves none pending, once the configured
  -- overlap has passed or less than a whole day of the old certificate is left.
  pub evaluate-rotates :
      (r : IdpSettings) (s : State) (cert : String) (p : CertPair) (t now later : ℕ)
      → s.row ≡ some r
      → IsRotated (r.slots k) cert
      → (r.slots k).pending_cert_pem ≡ none
      → reader.not_after cert ≡ some t
      → t ≤ now + config.lead_days k * day_ms
      → crypto.generate k r.entity_id (renewal r now) ≡ done p
      → is_empty p.cert_pem ≡ false
      → now ≤ later
      → ((now + config.overlap_days k * day_ms ≤ later) ⊎ (t < later + day_ms))
      → (r1 : IdpSettings) × (r2 : IdpSettings) × ((evaluate_auto_rotation_for_kind crypto reader
            config k r now scheduled false s).1
          ≡ done r1)
        × ((r1.slots k).cert_pem ≡ some cert)
        × ((r1.slots k).pending_cert_pem ≡ some p.cert_pem)
        × ((evaluate_auto_rotation_for_kind crypto reader config k r1 later scheduled false
              (evaluate_auto_rotation_for_kind crypto reader config k r now scheduled false
                s).0).0.row
            ≡ some r2)
        × ((r2.slots k).cert_pem ≡ some p.cert_pem)
        × ((r2.slots k).key_encrypted ≡ some (crypto.encrypt p.private_key_pem))
        × ((r2.slots k).pending_cert_pem ≡ none)
  evaluate-rotates r s cert p t now later row rotated no_pending ends due generated set le over =
      let r1 = started_row r p now in
      let (answer, stored) =
        evaluate-starts r s cert p t now row rotated no_pending ends due generated in
      let first =
        (evaluate_auto_rotation_for_kind crypto reader config k r now scheduled false s).0 in
      let slot =
        clear_failure_data
          (pending_data p.cert_pem (crypto.encrypt p.private_key_pem) p.crypto now (r.slots k)) in
      let same : r1.slots k ≡ slot = at_kind-same k slot r.slots in
      let kept = ap (λ (l : Slot). l.cert_pem) same ∙ rotated.has_cert in
      let pending = ap (λ (l : Slot). l.pending_cert_pem) same in
      let rotated1 : IsRotated (r1.slots k) cert = record {
        enabled = ap (λ (l : Slot). l.auto_rotate_enabled) same ∙ rotated.enabled;
        not_disabled = ap (λ (l : Slot). l.disabled_at) same ∙ rotated.not_disabled;
        has_cert = kept;
        cert_set = rotated.cert_set;
      } in
      let (answer2, stored2) =
        evaluate-completes r1 first cert p.cert_pem now later stored rotated1 pending set
          (ap (λ (l : Slot). l.rotation_started_at) same)
          (effective_overlap-elapsed cert t now later ends le over) in
      let last = at_kind-same k (clear_failure_data (complete_data (r1.slots k))) r1.slots in
      (
        r1,
        promoted_row r1 later,
        answer,
        kept,
        pending,
        stored2,
        ap (λ (l : Slot). l.cert_pem) last ∙ pending,
        ap (λ (l : Slot). l.key_encrypted) last ∙ ap (λ (l : Slot). l.pending_key_encrypted) same,
        ap (λ (l : Slot). l.pending_cert_pem) last,
      )
