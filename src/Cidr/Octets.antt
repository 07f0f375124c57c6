-- ===== src/Cidr/Octets.antt =====
-- Dotted IPv4 addresses: the value of one, its bounds, and the way back from its text.
use native.Mathlib.Nat.{pow-suc}
use nest_id_p.Base.{
  ℕ, ◌+◌, ◌*◌, ◌^◌, ◌≤◌, ◌<◌, ◌≡◌, inl, inr, some, List, [], ◌∷◌, arith, length, Option-cases,
  if◌then◌else◌, ◌++◌, Bool-cases, ap, false, ltb, refl, ◌/◌, nat_beq, ◌%◌, nat_beq_iff,
}
use nest_id_p.Base.Text.{Text, decimal_from, includes, split}
use nest_id_p.Cidr.{octet, octets, ipv4_to_int}

octet-le : (part : Text) (n : ℕ) → octet part ≡ some n → n ≤ 255
unfolding octet
octet-le part n e = ground arith

-- Four parts make less than 2 ^ 32, and so on for any number of parts.
octets-lt :
    (value bound v : ℕ) (parts : List Text)
    → value < bound
    → octets value parts ≡ some v
    → v < bound * 256 ^ length parts
unfolding octets
octets-lt value bound v [] h e = ground arith
octets-lt value bound v (part ∷ parts) h e = elim (Option-cases (octet part)) [
  | inl o ↦ absurd (let z = rw (o, octets) at e in cc)
  | inr (n, o) ↦
      let small = octet-le part n o in
      let rest =
        octets-lt (value * 256 + n) (bound * 256) v parts (omega arith) (rw (o, octets) at e) in
      rw (pow-suc 256 (length parts)) (grind (arith, rest))
]

-- An IPv4 address is a number below 2 ^ 32.
pub ipv4_to_int-lt : (ip : Text) (v : ℕ) → ipv4_to_int ip ≡ some v → v < 4294967296
unfolding ipv4_to_int
ipv4_to_int-lt ip v e = elim (Bool-cases (nat_beq (length (split b'.' ip)) 4)) [
  | inl four ↦
      let count = (nat_beq_iff _ 4).0 four in
      rw (count) at (octets-lt 0 1 v (split b'.' ip) (omega arith) (rw (four, ipv4_to_int) at e))
  | inr other ↦ absurd (let z = rw (other, ipv4_to_int) at e in cc)
]

-- The decimal text of a number below 1000.
pub decimal_text : ℕ → Text
decimal_text n =
    if ltb n 10
    then (n + b'0') ∷ []
    else if ltb n 100
    then (n / 10 + b'0') ∷ (n % 10 + b'0') ∷ []
    else (n / 100 + b'0') ∷ (n / 10 % 10 + b'0') ∷ (n % 10 + b'0') ∷ []

octet-decimal_text : (n : ℕ) → n < 256 → octet (decimal_text n) ≡ some n
unfolding octet decimal_text decimal_from
octet-decimal_text n h = ground arith

no_dot-decimal_text : (n : ℕ) → n < 256 → includes b'.' (decimal_text n) ≡ false
unfolding decimal_text
no_dot-decimal_text n h = ground arith

split-append : (c : ℕ) (s t : Text) → includes c s ≡ false → split c (s ++ c ∷ t) ≡ s ∷ split c t
unfolding split
split-append c [] t h = ground arith
split-append c (d ∷ s) t h = ground (arith, split-append c s t)

split-none : (c : ℕ) (s : Text) → includes c s ≡ false → split c s ≡ s ∷ []
unfolding split
split-none c [] h = refl
split-none c (d ∷ s) h = ground (arith, split-none c s)

pub dotted : ℕ → ℕ → ℕ → ℕ → Text
dotted a b c d =
    decimal_text a ++ b'.' ∷ (decimal_text b ++ b'.' ∷ (decimal_text c ++ b'.' ∷ decimal_text d))

-- The text of an address reads back as its value.
pub ipv4_to_int-dotted :
    (a b c d : ℕ)
    → a < 256
    → b < 256
    → c < 256
    → d < 256
    → ipv4_to_int (dotted a b c d) ≡ some (((a * 256 + b) * 256 + c) * 256 + d)
unfolding ipv4_to_int dotted octets
ipv4_to_int-dotted a b c d ha hb hc hd =
    rw
      (
        split-append b'.' (decimal_text a) _ (no_dot-decimal_text a ha),
        split-append b'.' (decimal_text b) _ (no_dot-decimal_text b hb),
        split-append b'.' (decimal_text c) _ (no_dot-decimal_text c hc),
        split-none b'.' (decimal_text d) (no_dot-decimal_text d hd),
      )
      (rw
        (
          octet-decimal_text a ha,
          octets,
          octet-decimal_text b hb,
          octet-decimal_text c hc,
          octet-decimal_text d hd,
        )
        (ap some (omega arith)))
