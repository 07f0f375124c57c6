-- ===== src/Cidr/Bypass.antt =====
-- packages/shared/src/proxy.ts: the list of hosts that skip the outbound proxy, and its test. A URL
-- parser answers the host and the port, absent where it throws; the port is empty where it is the
-- default one. `to_lower` is `toLowerCase`.
-- Texts between separators: commas and blanks.
use nest_id_p.Cidr.{unbracket, ip_in_cidr}
use nest_id_p.Base.{
  ℕ, Bool, true, false, ◌&&◌, ◌||◌, Option, none, some, List, [], ◌∷◌, ◌++◌, nat_beq, if◌then◌else◌,
}
use nest_id_p.Base.Eq.{nat_eq, string_eq}
use nest_id_p.Base.Text.{Text, codes, is_blank, push_head, text_beq, includes}

abbrev pub is_separator : ℕ → Bool
is_separator c = nat_beq c b',' || is_blank c

unfoldable pub split_tokens : Text → List Text
split_tokens [] = [] ∷ []
split_tokens (c ∷ s) =
    let rest = split_tokens s in if is_separator c then [] ∷ rest else push_head c rest

abbrev pub is_nothing : Text → Bool
is_nothing [] = true
is_nothing (c ∷ s) = false

abbrev pub has_text : Text → List Text → Bool
has_text t [] = false
has_text t (u ∷ us) = text_beq u t || has_text t us

abbrev pub starts_with : ℕ → Text → Bool
starts_with c [] = false
starts_with c (d ∷ s) = nat_beq d c

-- `s.endsWith(t)`.
unfoldable pub ends_with : Text → Text → Bool
ends_with t [] = is_nothing t
ends_with t (c ∷ s) = text_beq (c ∷ s) t || ends_with t s

abbrev pub tail : Text → Text
tail [] = []
tail (c ∷ s) = s

module _ (to_lower : Text → Text) where
  -- `seen` and `out` hold the same tokens.
  unfoldable pub add_tokens : List Text → List Text → List Text
  add_tokens [] out = out
  add_tokens (part ∷ parts) out =
      let token = to_lower part in
      if is_nothing token || has_text token out
      then add_tokens parts out
      else add_tokens parts (out ++ token ∷ [])

  pub parse_no_proxy_hosts : Text → List Text
  parse_no_proxy_hosts raw = add_tokens (split_tokens raw) []

abbrev pub always_bypass : List Text
always_bypass = codes "localhost" ∷ codes "127.0.0.1" ∷ codes "::1" ∷ []

module _ (number_of : Text → Option ℕ) (to_lower : Text → Text)
    (url_of : Text → Option (Text × Text)) where
  -- One turn of the loop over the tokens.
  abbrev pub token_matches : Text → Text → Text → Bool
  token_matches host host_port token =
      text_beq token (codes "*")
      || ((text_beq token host || text_beq token host_port)
          || ((starts_with b'.' token && (text_beq host (tail token) || ends_with token host))
              || (includes b'/' token && ip_in_cidr number_of host token)))

  unfoldable pub any_matches : Text → Text → List Text → Bool
  any_matches host host_port [] = false
  any_matches host host_port (t ∷ ts) =
      token_matches host host_port t || any_matches host host_port ts

  pub host_bypasses_proxy : Text → List Text → Bool
  host_bypasses_proxy target tokens = elim (url_of target) [
    | none ↦ false
    | some (hostname, port) ↦
        let host = to_lower (unbracket hostname) in
        let host_port = if is_nothing port then host else host ++ b':' ∷ port in
        has_text host always_bypass || any_matches host host_port tokens
  ]
