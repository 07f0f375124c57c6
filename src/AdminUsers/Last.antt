-- ===== src/AdminUsers/Last.antt =====
-- There is always somebody who can administer.
use mathlib.Core.Path.{subst}
use nest_id_p.Base.Lists.{find, any}
use nest_id_p.Base.{if-both}
use nest_id_p.Base.Text.{is_empty}
use nest_id_p.Sync.Errors.{Outcome}
use nest_id_p.Base.Rows.{update_first}
use nest_id_p.Identity.Data.{Fresh}
use nest_id_p.AdminUsers.{
  AdminUser, Admins, AdminRequest, unlock_request, create_request, password_request, delete_request,
  serve, serve_all, admin_has_id, unlock_account, create_admin, update_password, delete_admin,
  Actor,
}
use nest_id_p.Base.{
  ◌≤◌, ◌≡◌, inl, inr, refl, sym, String, Bool, not, List, [], ◌∷◌, ◌++◌, arith, length,
  Option-cases,
}
use nest_id_p.Base.Eq.{◌==◌, nat_eq, string_eq}

length-update_first :
    (test : AdminUser → Bool) (change : AdminUser → AdminUser) (rows : List AdminUser)
    → length (update_first test change rows) ≡ length rows
unfolding update_first
length-update_first test change [] = refl
length-update_first test change (a ∷ rows) = ground (arith, length-update_first test change rows)

some_append : (rows : List AdminUser) (a : AdminUser) → 1 ≤ length (rows ++ a ∷ [])
some_append [] a = omega arith
some_append (b ∷ rows) a = omega (arith, some_append rows a)

unlock_account-rows :
    (trim : String → String) (id : String) (actor : Actor) (ip : String) (d : Admins)
    → (unlock_account trim id actor ip d).0.rows ≡ d.rows
unfolding unlock_account
unlock_account-rows trim id actor ip d = elim (Option-cases (find (admin_has_id id) d.rows)) [
  | inl e ↦ rw (e, unlock_account) refl
  | inr (a, e) ↦ rw (e, unlock_account) refl
]

module _ (trim : String → String) (strong : String → Bool) (hash : String → String)
    (fresh : Fresh) where
  serve-some :
      (q : AdminRequest) (d : Admins)
      → 1 ≤ length d.rows
      → 1 ≤ length (serve trim strong hash fresh q d).rows
  unfolding unlock_account create_admin update_password delete_admin
  serve-some (unlock_request id actor ip) d h =
      subst (λ (l : List AdminUser). 1 ≤ length l) (sym (unlock_account-rows trim id actor ip d)) h
  serve-some (create_request name password actor) d h =
      let kept : Admins × Outcome AdminUser → Type 0 = λ v. 1 ≤ length v.0.rows in
      if-both kept (not (strong password)) _ _ h (
        if-both kept (is_empty (trim name)) _ _ h
          (if-both kept (any (λ a. a.username == trim name) d.rows) _ _ h (some_append d.rows _)))
  serve-some (password_request id password actor) d h = ground (
    arith,
    h,
    length-update_first (admin_has_id id) (λ b. record b { password_hash = hash password }) d.rows,
  )
  serve-some (delete_request id actor) d h = ground (arith, h)

  -- Whatever requests reach the service, in any order and from any actors: where there was an
  -- administrator before, there is one after them.
  pub serve_all-some :
      (qs : List AdminRequest) (d : Admins)
      → 1 ≤ length d.rows
      → 1 ≤ length (serve_all trim strong hash fresh qs d).rows
  serve_all-some [] d h = h
  serve_all-some (q ∷ qs) d h =
      serve_all-some qs (serve trim strong hash fresh q d) (serve-some q d h)
