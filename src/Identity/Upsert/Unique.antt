-- ===== src/Identity/Upsert/Unique.antt =====
-- The unique indexes on usernames and on external ids, under what the synchronisation calls.
use nest_id_p.Base.{
  ◌≤◌, ◌≡◌, inl, inr, refl, sym, String, false, none, some, List, [], ◌∷◌, ◌++◌, arith,
  Option-cases, none-passes,
}
use nest_id_p.Base.Eq.{nat_eq, string_eq}
use nest_id_p.Base.{find}
use nest_id_p.Base.Rows.{
  count-append, one_if, update_first, count, find-passes, find_unique, count-none,
  count-update_first, count-update_where, count-zero, none-passes,
}
use mathlib.Core.Path.{subst}
use nest_id_p.Sync.Directory.{ExternalUser}
use nest_id_p.Identity.Data.{Identity, User, Fresh, has_external, has_username}
use nest_id_p.Identity.Upsert.{
  upsert_user, written, created, deactivate_users_not_in_external_ids, to_deactivate,
}
use nest_id_p.Identity.Upsert.Cases.{upsert_user-cases, IsFree}

-- No username stands twice, and no external id twice under one source.
abbrev pub UsersUnique : List User → Type 0
UsersUnique users =
    ((name : String) → count (has_username name) users ≤ 1)
    × ((c id : String) → count (has_external c id) users ≤ 1)

-- The only row of a free username is that of the identity itself.
free_owner :
    (d : Identity) (c : String) (u : ExternalUser) (x : User)
    → UsersUnique d.users
    → IsFree d c u
    → find (has_external c u.id) d.users ≡ some x
    → count (has_username u.username) d.users ≡ one_if (has_username u.username x)
free_owner d c u x (names, ids) free h =
    elim (Option-cases (find (has_username u.username) d.users)) [
      | inl e ↦ ground (
        arith,
        count-none (has_username u.username) d.users e,
        find_unique (has_username u.username) (has_external c u.id) d.users x (names u.username) h,
      )
      | inr (y, e) ↦
          let own = rw e at free in
          ground (
            arith,
            own,
            find-passes (has_username u.username) d.users y e,
            find_unique (has_external c u.id) (has_username u.username) d.users y (ids c u.id) e,
            h,
            names u.username,
            count-zero (has_username u.username) d.users,
          )
    ]

-- A free username of an identity without a row has no owner.
no_owner :
    (d : Identity) (c : String) (u : ExternalUser)
    → IsFree d c u
    → find (has_external c u.id) d.users ≡ none
    → count (has_username u.username) d.users ≡ 0
no_owner d c u free h = elim (Option-cases (find (has_username u.username) d.users)) [
  | inl e ↦ count-none (has_username u.username) d.users e
  | inr (y, e) ↦
      let own = rw e at free in
      ground (arith, own, none-passes (has_external c u.id) (has_username u.username) d.users y h e)
]

module _ (to_lower : String → String) (fresh : Fresh) where
  update_first-UsersUnique :
      (d : Identity) (c : String) (u : ExternalUser) (x : User)
      → UsersUnique d.users
      → IsFree d c u
      → find (has_external c u.id) d.users ≡ some x
      → UsersUnique (update_first (has_external c u.id) (written to_lower u) d.users)
  update_first-UsersUnique d c u x unique free h = (
    λ name. ground (
      arith,
      unique.0 name,
      free_owner d c u x unique free h,
      string_eq.beq_iff u.username name,
      count-update_first (has_username name) (has_external c u.id) (written to_lower u) d.users x h,
    ),
    λ c2 id2. ground (
      arith,
      unique.1 c2 id2,
      count-update_first (has_external c2 id2) (has_external c u.id) (written to_lower u) d.users x
          h,
    ),
  )

  created-UsersUnique :
      (d : Identity) (c : String) (u : ExternalUser)
      → UsersUnique d.users
      → IsFree d c u
      → find (has_external c u.id) d.users ≡ none
      → UsersUnique (d.users ++ created to_lower fresh d.next_id c u ∷ [])
  unfolding count
  created-UsersUnique d c u unique free h = (
    λ name. ground (
      arith,
      unique.0 name,
      count-append (has_username name) d.users (created to_lower fresh d.next_id c u ∷ []),
      string_eq.beq_iff u.username name,
      no_owner d c u free h,
    ),
    λ c2 id2. ground (
      arith,
      unique.1 c2 id2,
      count-append (has_external c2 id2) d.users (created to_lower fresh d.next_id c u ∷ []),
      string_eq.beq_iff c c2,
      string_eq.beq_iff u.id id2,
      count-none (has_external c u.id) d.users h,
    ),
  )

  pub upsert_user-UsersUnique :
      (d : Identity) (c : String) (u : ExternalUser)
      → UsersUnique d.users
      → UsersUnique (upsert_user to_lower fresh d c u).0.users
  upsert_user-UsersUnique d c u unique = elim (upsert_user-cases to_lower fresh d c u) [
    | inl same ↦ subst (λ (l : List User). UsersUnique l) (sym same) unique
    | inr (inl (x, free, h, o, same)) ↦
        subst (λ (l : List User). UsersUnique l) (sym same)
          (update_first-UsersUnique d c u x unique free h)
    | inr (inr (free, h, same)) ↦
        subst (λ (l : List User). UsersUnique l) (sym same)
          (created-UsersUnique d c u unique free h)
  ]

pub deactivate-UsersUnique :
    (d : Identity) (c : String) (seen : List String)
    → UsersUnique d.users
    → UsersUnique (deactivate_users_not_in_external_ids d c seen).0.users
unfolding deactivate_users_not_in_external_ids
deactivate-UsersUnique d c seen unique = (
  λ name. omega (
    arith,
    unique.0 name,
    count-update_where (has_username name) (to_deactivate c seen) (λ u. record u { active = false })
        d.users (λ u. refl),
  ),
  λ c2 id2. omega (
    arith,
    unique.1 c2 id2,
    count-update_where (has_external c2 id2) (to_deactivate c seen)
        (λ u. record u { active = false }) d.users (λ u. refl),
  ),
)
