-- ===== src/AuthProtection/Login/Guesses.antt =====
-- How many passwords of one account can be tried while a window of its name is open.
use nest_id_p.Base.{
  ℕ, ◌+◌, ◌≤◌, ◌<◌, ◌≡◌, refl, ◌∙◌, sym, ◌⊎◌, inl, inr, String, true, false, Option, List, [], ◌∷◌,
  arith, Bool-cases, All,
}
use nest_id_p.Base.Text.{Text}
use nest_id_p.Limiter.{Bucket}
use nest_id_p.Limiter.Isolation.{get-check_live}
use nest_id_p.AuthProtection.Settings.{Scope, Settings}
use nest_id_p.AuthProtection.Login.{
  Protection, Reply, bad_credentials, rejected, username_key, is_trusted, login_request,
  after_password, precheck_login,
}
use nest_id_p.AuthProtection.Login.Order.{allowed-precheck_login}
use nest_id_p.AuthProtection.Login.Throttle.{
  Counts, Counts-precheck_login, Counts-record_login_failure,
}

-- A request with a wrong password, from an address and at a time.
pub record Guess : Type 0 where
  pub client_ip : String
  pub at : ℕ

-- A password was looked at exactly when the answer is `bad_credentials`.
abbrev pub tried : Reply → ℕ
tried bad_credentials = 1
tried _ = 0

module _ (number_of : Text → Option ℕ) (settings : Settings) (scope : Scope) (name : String) where
  abbrev guess : Guess → Protection → Protection × Reply
  guess g p = login_request number_of settings scope name g.client_ip g.at true rejected p

  -- The state after the guesses, and how many passwords were looked at.
  pub guesses : List Guess → Protection → Protection × ℕ
  guesses [] p = (p, 0)
  guesses (g ∷ gs) p =
      let (q, reply) = guess g p in let (r, n) = guesses gs q in (r, tried reply + n)

  -- From an address that is not trusted, while the window of the name is open.
  abbrev pub InWindow : ℕ → Guess → Type 0
  InWindow start g =
      (is_trusted number_of settings g.client_ip ≡ false)
      × (g.at < start + settings.login_username_window_ms scope)

  -- A guess is refused, or it is below the limit and raises the count.
  abbrev Counted : Bucket → Protection × Reply → Type 0
  Counted b (q, reply) =
      ((tried reply ≡ 0) × Counts (username_key scope name) b q.throttle)
      ⊎ ((tried reply ≡ 1)
          × (b.count < settings.login_username_max scope)
          × Counts (username_key scope name)
              (record { count = b.count + 1; window_start_ms = b.window_start_ms }) q.throttle)

  allowed-lt-max :
      (g : Guess) (b : Bucket) (p : Protection)
      → InWindow b.window_start_ms g
      → Counts (username_key scope name) b p.throttle
      → (precheck_login number_of settings scope name g.client_ip g.at p).1.allowed ≡ true
      → b.count < settings.login_username_max scope
  allowed-lt-max g b p (stranger, early) c ok =
      let limited =
        (get-check_live p.throttle (username_key scope name) b (settings.login_username_max scope)
          (settings.login_username_window_ms scope) g.at c.bucket early).1 in
      let formula =
        sym ok ∙ allowed-precheck_login number_of settings scope name g.client_ip g.at p in
      ground arith

  guess-Counted :
      (g : Guess) (b : Bucket) (p : Protection)
      → settings.login_username_window_ms scope ≤ settings.login_ip_window_ms scope
      → InWindow b.window_start_ms g
      → Counts (username_key scope name) b p.throttle
      → Counted b (guess g p)
  unfolding login_request after_password
  guess-Counted g b p longer w c =
      let checked =
        Counts-precheck_login number_of settings scope name g.client_ip g.at b w.1 p c in
      elim (Bool-cases
        (precheck_login number_of settings scope name g.client_ip g.at p).1.allowed) [
          | inl ok ↦
              rw (ok, login_request)
                (inr (
                  refl,
                  allowed-lt-max g b p w c ok,
                  Counts-record_login_failure number_of settings scope name g.client_ip g.at b w.1 _
                      longer checked,
                ))
          | inr refused ↦ rw (refused, login_request) (inl (refl, checked))
        ]

  -- However many guesses are sent, and from however many addresses, none of them trusted, while a
  -- window of the name is open and its count is no more than the limit of the name, no more passwords
  -- are looked at than the limit leaves, if the window of an address is no shorter than that of a
  -- name.
  pub guesses-le-max :
      (gs : List Guess) (b : Bucket) (p : Protection)
      → settings.login_username_window_ms scope ≤ settings.login_ip_window_ms scope
      → All (InWindow b.window_start_ms) gs
      → Counts (username_key scope name) b p.throttle
      → b.count ≤ settings.login_username_max scope
      → b.count + (guesses gs p).1 ≤ settings.login_username_max scope
  unfolding guesses
  guesses-le-max [] b p longer a c le = omega arith
  guesses-le-max (g ∷ gs) b p longer (w, a) c le = elim (guess-Counted g b p longer w c) [
    | inl (none_tried, kept) ↦
        let rest = guesses-le-max gs b (guess g p).0 longer a kept le in omega arith
    | inr (one_tried, below, raised) ↦
        let rest =
          guesses-le-max gs (record { count = b.count + 1; window_start_ms = b.window_start_ms })
            (guess g p).0 longer a raised (omega arith) in
        omega arith
  ]
