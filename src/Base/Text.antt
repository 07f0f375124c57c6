-- ===== src/Base/Text.antt =====
-- Texts that the program walks, as lists of code points, and the string methods that it calls.
use Prim.Native.Char.{code}
use Prim.Native.Nat.{ℕ, ◌+◌, ◌-◌, ◌*◌}
use Prim.Native.String.{String}
use mathlib.Core.Bool.{Bool, true, false, ◌&&◌, ◌||◌}
use mathlib.Core.List.{List, [], ◌∷◌, reverse, map}
use nest_id_p.Base.Tests.{nat_beq, leb, if◌then◌else◌}

abbrev pub Text : Type 0
Text = List ℕ

abbrev pub codes : String → Text
codes String.[] = []
codes (String.◌∷◌ c s) = code c ∷ codes s

abbrev pub text_beq : Text → Text → Bool
text_beq [] [] = true
text_beq (a ∷ s) (b ∷ t) = nat_beq a b && text_beq s t
text_beq _ _ = false

abbrev pub is_digit : ℕ → Bool
is_digit c = leb b'0' c && leb c b'9'

-- `toLowerCase` on ASCII; other letters are left.
abbrev pub lower_code : ℕ → ℕ
lower_code c = if leb b'A' c && leb c b'Z' then c + 32 else c

abbrev pub to_lower_case : Text → Text
to_lower_case = map lower_code

-- Blanks that `trim` takes off.
abbrev pub is_blank : ℕ → Bool
is_blank c = nat_beq c 32 || (leb 9 c && leb c 13)

unfoldable pub drop_blanks : Text → Text
drop_blanks [] = []
drop_blanks (c ∷ s) = let rest = drop_blanks s in if is_blank c then rest else c ∷ s

unfoldable pub trim : Text → Text
unfolding drop_blanks
trim s = reverse (drop_blanks (reverse (drop_blanks s)))

abbrev pub includes : ℕ → Text → Bool
includes c [] = false
includes c (d ∷ s) = nat_beq d c || includes c s

abbrev pub push_head : ℕ → List Text → List Text
push_head c [] = (c ∷ []) ∷ []
push_head c (t ∷ ts) = (c ∷ t) ∷ ts

-- `s.split(c)` for one character.
unfoldable pub split : ℕ → Text → List Text
split c [] = [] ∷ []
split c (d ∷ s) = let rest = split c s in if nat_beq d c then [] ∷ rest else push_head d rest

-- The value of a text of digits.
unfoldable pub decimal_from : ℕ → Text → ℕ
decimal_from acc [] = acc
decimal_from acc (c ∷ s) = decimal_from (acc * 10 + (c - b'0')) s

abbrev pub all_digits : Text → Bool
all_digits [] = true
all_digits (c ∷ s) = is_digit c && all_digits s

-- `trim` on the other kind of text.
unfoldable pub trim_start : String → String
trim_start String.[] = String.[]
trim_start (String.◌∷◌ c s) =
    let rest = trim_start s in if is_blank (code c) then rest else String.◌∷◌ c s

abbrev pub is_empty : String → Bool
is_empty String.[] = true
is_empty (String.◌∷◌ c s) = false

unfoldable pub trim_end : String → String
trim_end String.[] = String.[]
trim_end (String.◌∷◌ c s) =
    let rest = trim_end s in
    if is_empty rest && is_blank (code c) then String.[] else String.◌∷◌ c rest
