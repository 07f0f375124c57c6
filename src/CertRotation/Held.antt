-- ===== src/CertRotation/Held.antt =====
-- What every operation keeps of a certificate slot: a pending certificate stands with its key and
-- its start, and an active certificate is not lost. One lemma for each way in which a slot is
-- written.
-- A pending certificate, its key and its start come together.
use nest_id_p.Base.Text.{is_empty}
use nest_id_p.Sync.Errors.{done}
use nest_id_p.CertRotation.{
  CertKind, signing, encryption, IdpSettings, Slot, CryptoColumns, CertPair, pending_data,
  primary_data, is_set, has_active, has_pending, clear_pending_data, change_slot, complete_data,
}
use nest_id_p.CertRotation.Service.{Crypto, toggled, is_given}
use nest_id_p.Base.{ℕ, ◌≡◌, refl, String, Bool, true, false, Option, none, some, arith}
use nest_id_p.Base.Eq.{nat_eq, string_eq}

abbrev pub IsPaired : Slot → Type 0
IsPaired s =
    (is_set s.pending_cert_pem ≡ is_set s.pending_key_encrypted)
    × (is_set s.pending_cert_pem ≡ true → is_given s.rotation_started_at ≡ true)

-- `active` says that there was an active certificate before.
abbrev pub Held : Bool → Slot → Type 0
Held active s = IsPaired s × (active ≡ true → has_active s ≡ true)

-- What is known of certificates and keys: they are no empty texts.
pub record IsSound {Options : Type 0} (crypto : Crypto Options) : Type 0 where
  pub generated :
      (kind : CertKind) (entity_id : String) (options : Options) (p : CertPair)
      → crypto.generate kind entity_id options ≡ done p
      → is_empty p.cert_pem ≡ false
  pub validated :
      (kind : CertKind) (cert key : String) (signing_cert : Option String) (p : CertPair)
      → crypto.validate kind cert key signing_cert ≡ done p
      → is_empty p.cert_pem ≡ false
  pub encrypted : (key : String) → is_empty (crypto.encrypt key) ≡ false

module _ (active : Bool) where
  pub primary_data-Held :
      (cert key : String) (columns : CryptoColumns) (s : Slot)
      → is_empty cert ≡ false
      → is_empty key ≡ false
      → Held active s
      → Held active (primary_data cert key columns s)
  primary_data-Held cert key columns s c k (paired, held) = (paired, λ a. ground (arith, c, k))

  pub pending_data-Held :
      (cert key : String) (columns : CryptoColumns) (at : ℕ) (s : Slot)
      → is_empty cert ≡ false
      → is_empty key ≡ false
      → Held active s
      → Held active (pending_data cert key columns at s)
  pending_data-Held cert key columns at s c k (paired, held) =
      ((ground (arith, c, k), λ p. refl), held)

  pub clear_pending_data-Held : (s : Slot) → Held active s → Held active (clear_pending_data s)
  clear_pending_data-Held s (paired, held) = ((refl, λ p. ground (arith, p)), held)

  pub complete_data-Held :
      (s : Slot) → has_pending s ≡ true → Held active s → Held active (complete_data s)
  complete_data-Held s pending ((same, started), held) =
      ((refl, λ p. ground (arith, p)), λ a. ground (arith, pending, same))

  pub toggled-Held : (b : Option Bool) (s : Slot) → Held active s → Held active (toggled b s)
  toggled-Held none s h = h
  toggled-Held (some true) s h = h
  toggled-Held (some false) s h = h

  pub change_slot-Held :
      (k kind : CertKind) (f : Slot → Slot) (r : IdpSettings)
      → (Held active (r.slots k) → Held active (f (r.slots k)))
      → Held active (r.slots kind)
      → Held active ((change_slot k f r).slots kind)
  change_slot-Held signing signing f r kept h = kept h
  change_slot-Held signing encryption f r kept h = h
  change_slot-Held encryption signing f r kept h = h
  change_slot-Held encryption encryption f r kept h = kept h

-- A row, where there is one, holds the slot of a kind.
abbrev pub RowHeld : CertKind → Bool → Option IdpSettings → Type 0
RowHeld kind active none = Unit
RowHeld kind active (some r) = Held active (r.slots kind)
