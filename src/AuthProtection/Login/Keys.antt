-- ===== src/AuthProtection/Login/Keys.antt =====
-- The keys of the throttle: no two surfaces, scopes, addresses or names share a counter.
use Prim.Native.Char.{Char, code}
use Prim.Native.String.{◌++◌ as append}
use text.Mathlib.TextLemmas.{cons-append, append_cancel_left}
use nest_id_p.Base.{ℕ, ◌≡◌, ◌≢◌, refl, sym, ◌∙◌, ap, String, arith}
use nest_id_p.AuthProtection.Settings.{Scope, admin, end_user}
use nest_id_p.AuthProtection.Login.{
  Surface, login, sso, ip_key, username_key, scope_text, surface_text,
}

abbrev first_code : String → ℕ
first_code String.[] = 0
first_code (String.◌∷◌ c s) = code c

first_code-append : (c : Char) (s t : String) → first_code (append (String.◌∷◌ c s) t) ≡ code c
first_code-append c s t = ap first_code (cons-append c s t)

-- The first code of a surface's text, whatever follows it.
surface_code : Surface → ℕ
surface_code (login admin) = b'a'
surface_code (login end_user) = b'e'
surface_code sso = b's'

first_code-surface_text :
    (s : Surface) (t : String) → first_code (append (surface_text s) t) ≡ surface_code s
unfolding surface_code
first_code-surface_text (login admin) t = first_code-append "a" "dmin" t
first_code-surface_text (login end_user) t = first_code-append "e" "nd_user" t
first_code-surface_text sso t = first_code-append "s" "so" t

surface_of_code : (s t : Surface) → surface_code s ≡ surface_code t → s ≡ t
unfolding surface_code
surface_of_code (login admin) (login admin) e = refl
surface_of_code (login admin) (login end_user) e = absurd (omega arith)
surface_of_code (login admin) sso e = absurd (omega arith)
surface_of_code (login end_user) (login admin) e = absurd (omega arith)
surface_of_code (login end_user) (login end_user) e = refl
surface_of_code (login end_user) sso e = absurd (omega arith)
surface_of_code sso (login admin) e = absurd (omega arith)
surface_of_code sso (login end_user) e = absurd (omega arith)
surface_of_code sso sso e = refl

surface_of_text :
    (s t : Surface) (a b : String) → append (surface_text s) a ≡ append (surface_text t) b → s ≡ t
surface_of_text s t a b e =
    surface_of_code s t
      (sym (first_code-surface_text s a) ∙ ap first_code e ∙ first_code-surface_text t b)

scope_of_login : (s t : Scope) → login s ≡ login t → s ≡ t
scope_of_login s t e = cc

key_of_text :
    (s t : Surface) (a b : String)
    → append (surface_text s) (append ":" a) ≡ append (surface_text t) (append ":" b)
    → (s ≡ t) × (a ≡ b)
key_of_text s t a b e =
    let same = surface_of_text s t (append ":" a) (append ":" b) e in
    let tails = append_cancel_left (surface_text t) (append ":" a) (append ":" b) (rw same at e) in
    (same, append_cancel_left ":" a b tails)

-- Two address counters are the same only for the same surface and the same address.
pub ip_key-injective : (s t : Surface) (a b : String) → ip_key s a ≡ ip_key t b → (s ≡ t) × (a ≡ b)
unfolding ip_key
ip_key-injective s t a b e = key_of_text s t a b (append_cancel_left "ip:" _ _ e)

-- Two name counters are the same only for the same scope and the same name.
pub username_key-injective :
    (s t : Scope) (a b : String) → username_key s a ≡ username_key t b → (s ≡ t) × (a ≡ b)
unfolding username_key
username_key-injective s t a b e =
    let both = key_of_text (login s) (login t) a b (append_cancel_left "un:" _ _ e) in
    (scope_of_login s t both.0, both.1)

-- No address counter is a name counter, whatever the address and the name hold.
pub ip_key-ne-username_key :
    (s : Surface) (t : Scope) (a b : String) → ip_key s a ≢ username_key t b
unfolding ip_key username_key
ip_key-ne-username_key s t a b e =
    let codes_differ =
      sym (first_code-append "i" "p:" (append (surface_text s) (append ":" a)))
      ∙ ap first_code e
      ∙ first_code-append "u" "n:" (append (scope_text t) (append ":" b)) in
    omega arith
