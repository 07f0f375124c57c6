-- ===== src/Cidr.antt =====
-- packages/shared/src/proxy.ts: the match of an address with a list of addresses and CIDR ranges,
-- which decides what the login protection trusts. A text is its list of code points. `Number` gives
-- 0 on the empty text and the value of a text of digits; on any other text it is the parameter
-- `number_of`, whose value is absent where `Number` gives no non-negative integer.
pub mod Ranges
pub mod Octets
pub mod Bypass
use nest_id_p.Base.{
  ℕ, ◌+◌, ◌-◌, ◌*◌, ◌/◌, ◌^◌, String, Bool, true, false, not, ◌&&◌, ◌||◌, Option, none, some, List,
  [], ◌∷◌, ◌++◌, leb, ltb, nat_beq, if◌then◌else◌, length,
}
use nest_id_p.Base.Text.{
  Text, text_beq, is_digit, to_lower_case, trim, includes, split, decimal_from, all_digits,
  push_head,
}
use mathlib.Core.List.{reverse}

-- `/^\d{1,3}$/` and `n <= 255`.
unfoldable pub octet : Text → Option ℕ
octet part =
    if leb 1 (length part) && (leb (length part) 3 && all_digits part)
    then (let n = decimal_from 0 part in if leb n 255 then some n else none)
    else none

-- The loop over the parts, `value = (value << 8n) | n`.
unfoldable pub octets : ℕ → List Text → Option ℕ
octets value [] = some value
octets value (part ∷ parts) = elim (octet part) [
  | none ↦ none
  | some n ↦ octets (value * 256 + n) parts
]

unfoldable pub ipv4_to_int : Text → Option ℕ
unfolding octets octet
ipv4_to_int ip =
    let parts = split b'.' ip in if nat_beq (length parts) 4 then octets 0 parts else none

-- The value of a hexadecimal digit, of those that `/^[0-9a-f]{1,4}$/` allows.
hex_digit : ℕ → Option ℕ
hex_digit c =
    if is_digit c
    then some (c - b'0')
    else if leb b'a' c && leb c b'f'
    then some (c - b'a' + 10)
    else none

hex_from : ℕ → Text → Option ℕ
unfolding hex_digit
hex_from acc [] = some acc
hex_from acc (c ∷ s) = elim (hex_digit c) [ none ↦ none | some d ↦ hex_from (acc * 16 + d) s ]

group : Text → Option ℕ
unfolding hex_from
group s = if leb 1 (length s) && leb (length s) 4 then hex_from 0 s else none

groups : ℕ → List Text → Option ℕ
unfolding group
groups value [] = some value
groups value (s ∷ ss) = elim (group s) [ none ↦ none | some n ↦ groups (value * 65536 + n) ss ]

-- `ip.split('::')`, which looks for the separator from the left.
split_pairs : Text → List Text
split_pairs [] = [] ∷ []
split_pairs (c ∷ []) = (c ∷ []) ∷ []
split_pairs (c ∷ d ∷ s) =
    let split_here = split_pairs s in
    let later = split_pairs (d ∷ s) in
    if nat_beq c b':' && nat_beq d b':' then [] ∷ split_here else push_head c later

-- `half ? half.split(':') : []`.
half_groups : Text → List Text
half_groups [] = []
half_groups (c ∷ s) = split b':' (c ∷ s)

zero_groups : ℕ → List Text
zero_groups ℕ.zero = []
zero_groups (ℕ.suc n) = (b'0' ∷ []) ∷ zero_groups n

all_groups : List Text → Option ℕ
unfolding groups
all_groups gs = if nat_beq (length gs) 8 then groups 0 gs else none

halves_to_int : List Text → Option ℕ
unfolding half_groups zero_groups all_groups
halves_to_int (head ∷ []) = all_groups (half_groups head)
halves_to_int (head ∷ tail ∷ []) =
    let h = half_groups head in
    let t = half_groups tail in
    if ltb 8 (length h + length t)
    then none
    else all_groups (h ++ (zero_groups (8 - (length h + length t)) ++ t))
halves_to_int _ = none

unfoldable pub ipv6_to_int : Text → Option ℕ
unfolding split_pairs halves_to_int
ipv6_to_int ip = if includes b':' ip then halves_to_int (split_pairs ip) else none

-- `x & mask`, where the mask clears the low `bits` bits.
unfoldable pub masked : ℕ → ℕ → ℕ
masked bits x = x / 2 ^ bits * 2 ^ bits

-- The comparison of one family: `width` is 32 or 128.
unfoldable pub in_range : ℕ → Option ℕ → ℕ → ℕ → Bool
in_range width none base prefix = false
in_range width (some host) base prefix =
    if ltb width prefix
    then false
    else nat_beq (masked (width - prefix) host) (masked (width - prefix) base)

-- The two parts of a token at its last slash, or nothing if it has none.
slash_parts : Text → Option (Text × Text)
slash_parts [] = none
slash_parts (c ∷ s) = elim (slash_parts s) [
  | some (base, prefix) ↦ some (c ∷ base, prefix)
  | none ↦ if nat_beq c b'/' then some ([], s) else none
]

module _ (number_of : Text → Option ℕ) where
  unfoldable pub number : Text → Option ℕ
  number [] = some 0
  number (c ∷ s) = if all_digits (c ∷ s) then some (decimal_from 0 (c ∷ s)) else number_of (c ∷ s)

  -- The families in their order; the base decides.
  family : Text → Text → ℕ → Bool
  family host base prefix = elim (ipv4_to_int base) [
    | some v4_base ↦ in_range 32 (ipv4_to_int host) v4_base prefix
    | none ↦ elim (ipv6_to_int base) [
      | some v6_base ↦ in_range 128 (ipv6_to_int host) v6_base prefix
      | none ↦ false
    ]
  ]

  in_cidr_parts : Text → Text → Option ℕ → Bool
  unfolding family
  in_cidr_parts host base none = false
  in_cidr_parts host base (some prefix) = family host base prefix

  -- Called for tokens with a slash.
  unfoldable pub ip_in_cidr : Text → Text → Bool
  unfolding slash_parts in_cidr_parts number
  ip_in_cidr host token = elim (slash_parts token) [
    | none ↦ false
    | some (base, prefix) ↦ in_cidr_parts host base (number prefix)
  ]

-- The text without its first and last code points, if these are brackets.
close : Text → Option Text
close [] = none
close (c ∷ []) = if nat_beq c b']' then some [] else none
close (c ∷ d ∷ s) = elim (close (d ∷ s)) [ none ↦ none | some t ↦ some (c ∷ t) ]

unfoldable pub unbracket : Text → Text
unfolding close
unbracket [] = []
unbracket (c ∷ s) = if nat_beq c b'[' then (elim (close s) [ some t ↦ t | none ↦ c ∷ s ]) else c ∷ s

module _ (number_of : Text → Option ℕ) where
  matches_token : Text → Text → Bool
  unfolding ip_in_cidr
  matches_token host token =
      if includes b'/' token
      then ip_in_cidr number_of host token
      else text_beq (unbracket token) host

  matches_any : Text → List Text → Bool
  unfolding matches_token
  matches_any host [] = false
  matches_any host (token ∷ tokens) = matches_token host token || matches_any host tokens

  unfoldable pub ip_matches_cidr_list : Text → List Text → Bool
  unfolding matches_any
  ip_matches_cidr_list [] tokens = false
  ip_matches_cidr_list (c ∷ s) tokens =
      matches_any (to_lower_case (unbracket (trim (c ∷ s)))) tokens
