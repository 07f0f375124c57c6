-- ===== src/Cidr/Ranges.antt =====
-- CIDR ranges as intervals.
use native.Mathlib.Nat.{div-eq_of_lt-le, one-le-pow}
use nest_id_p.Base.{
  ℕ, ◌+◌, ◌-◌, ◌*◌, ◌/◌, ◌^◌, ◌≤◌, ◌<◌, ◌≡◌, ◌↔◌, refl, ap, inl, inr, true, false, Option, none,
  some, [], ◌∷◌, ◌++◌, arith, nat_beq, Option-cases, nat_beq_iff, ltb-false,
}
use nest_id_p.Base.Text.{Text, includes}
use nest_id_p.Cidr.{
  masked, in_range, slash_parts, in_cidr_parts, family, number, ip_in_cidr, ipv4_to_int,
}
use nest_id_p.Cidr.Octets.{ipv4_to_int-lt}

masked-same :
    (m x y : ℕ) → 0 < m → (x / m * m ≡ y / m * m) ↔ ((y / m * m ≤ x) × (x < y / m * m + m))
masked-same m x y h = (
  λ e. (omega arith, omega arith),
  λ h'. ap (λ (q : ℕ). q * m) (div-eq_of_lt-le m h'.0 (omega (arith, h'.1))),
)

-- A host is in a range exactly when it is one of the 2 ^ (width - prefix) addresses from the
-- base's network on.
pub in_range_iff :
    (width host base prefix : ℕ)
    → prefix ≤ width
    → (in_range width (some host) base prefix ≡ true) ↔ (
        (masked (width - prefix) base ≤ host)
        × (host < masked (width - prefix) base + 2 ^ (width - prefix)))
unfolding in_range masked
in_range_iff width host base prefix h =
    let same =
      masked-same (2 ^ (width - prefix)) host base (one-le-pow (width - prefix) 2 (omega arith)) in
    let tested = nat_beq_iff (masked (width - prefix) host) (masked (width - prefix) base) in
    rw (ltb-false width prefix h) (λ e. same.0 (tested.0 e), λ r. tested.1 (same.1 r))

includes-false_head :
    (c d : ℕ) (s : Text)
    → includes c (d ∷ s) ≡ false
    → (nat_beq d c ≡ false) × (includes c s ≡ false)
includes-false_head c d s h = ground arith

-- A text with no slash has none to split at.
slash_parts-none : (s : Text) → includes b'/' s ≡ false → slash_parts s ≡ none
unfolding slash_parts
slash_parts-none [] h = refl
slash_parts-none (c ∷ s) h =
    let (head, tail) = includes-false_head b'/' c s h in
    rw (slash_parts-none s tail, slash_parts, head) refl

-- The parts of a token are what stands before and after its last slash.
slash_parts-append :
    (base prefix : Text)
    → includes b'/' prefix ≡ false
    → slash_parts (base ++ b'/' ∷ prefix) ≡ some (base, prefix)
unfolding slash_parts
slash_parts-append [] prefix h = rw (slash_parts-none prefix h, slash_parts) refl
slash_parts-append (c ∷ base) prefix h = rw (slash_parts-append base prefix h, slash_parts) refl

module _ (number_of : Text → Option ℕ) where
  -- A token whose base is an IPv4 address and whose prefix is a number up to 32 matches exactly the
  -- IPv4 addresses of its network.
  pub ip_in_cidr-ipv4 :
      (host base prefix : Text) (h b p : ℕ)
      → ipv4_to_int host ≡ some h
      → ipv4_to_int base ≡ some b
      → number number_of prefix ≡ some p
      → includes b'/' prefix ≡ false
      → p ≤ 32
      → (ip_in_cidr number_of host (base ++ b'/' ∷ prefix) ≡ true)
        ↔ ((masked (32 - p) b ≤ h) × (h < masked (32 - p) b + 2 ^ (32 - p)))
  unfolding ip_in_cidr
  ip_in_cidr-ipv4 host base prefix h b p eh eb ep plain le =
      rw (slash_parts-append base prefix plain, ip_in_cidr, ep, in_cidr_parts, family, eb, eh)
        (in_range_iff 32 h b p le)

  -- No name and no IPv6 address is in a range whose base is an IPv4 address.
  pub ip_in_cidr-ipv4_other :
      (host base prefix : Text) (b : ℕ)
      → ipv4_to_int host ≡ none
      → ipv4_to_int base ≡ some b
      → includes b'/' prefix ≡ false
      → ip_in_cidr number_of host (base ++ b'/' ∷ prefix) ≡ false
  unfolding ip_in_cidr in_range
  ip_in_cidr-ipv4_other host base prefix b eh eb plain =
      rw (slash_parts-append base prefix plain, ip_in_cidr)
        (elim (Option-cases (number number_of prefix)) [
          | inl e ↦ rw (e, in_cidr_parts) refl
          | inr (p, e) ↦ rw (e, in_cidr_parts, family, eb, eh, in_range) refl
        ])

  -- An address that ends in its slash, with no prefix, is read as a range with the prefix 0, which
  -- holds every IPv4 address.
  pub ip_in_cidr-empty_prefix :
      (host base : Text) (h b : ℕ)
      → ipv4_to_int host ≡ some h
      → ipv4_to_int base ≡ some b
      → ip_in_cidr number_of host (base ++ b'/' ∷ []) ≡ true
  unfolding number masked
  ip_in_cidr-empty_prefix host base h b eh eb =
      (ip_in_cidr-ipv4 host base [] h b 0 eh eb refl refl (omega arith)).1 (
        let small_base = ipv4_to_int-lt base b eb in
        let small_host = ipv4_to_int-lt host h eh in (omega arith, omega arith))
