-- ===== src/Identity/Upsert/Cases.antt =====
-- The tables that an upsert leaves.
use nest_id_p.Base.{
  ◌≡◌, ◌⊎◌, inl, inr, refl, String, true, false, ◌||◌, none, some, [], ◌∷◌, ◌++◌, Bool-cases,
  Option-cases,
}
use nest_id_p.Base.Eq.{nat_eq, string_eq}
use nest_id_p.Base.{find}
use nest_id_p.Base.Rows.{update_first}
use nest_id_p.Sync.Directory.{ExternalUser}
use nest_id_p.Identity.Data.{Identity, User, Fresh, is_synced, has_external, has_username}
use nest_id_p.Identity.Upsert.{
  upsert_row, upsert_user, is_taken_by_other, is_manual, rotates, written, created,
}

-- The username is free, or its owner is the user that is written.
abbrev pub IsFree : Identity → String → ExternalUser → Type 0
IsFree d c u = is_taken_by_other c u.id (find (has_username u.username) d.users) ≡ false

module _ (to_lower : String → String) (fresh : Fresh) where
  -- A refused upsert leaves the users; another writes the row of the identity, which was
  -- synchronised before, or adds one.
  abbrev pub Upserted : Identity → String → ExternalUser → Identity → Type 0
  Upserted d c u r =
      (r.users ≡ d.users)
      ⊎ (((x : User) × IsFree d c u
            × (find (has_external c u.id) d.users ≡ some x)
            × (is_synced x.origin ≡ true)
            × (r.users ≡ update_first (has_external c u.id) (written to_lower u) d.users))
          ⊎ (IsFree d c u
              × (find (has_external c u.id) d.users ≡ none)
              × (r.users ≡ d.users ++ created to_lower fresh d.next_id c u ∷ [])))

  -- What the lockouts become leaves the users, the groups and the roles.
  pub upsert_user-cases :
      (d : Identity) (c : String) (u : ExternalUser)
      → Upserted d c u (upsert_user to_lower fresh d c u).0
  unfolding upsert_user upsert_row
  upsert_user-cases d c u =
      let owner = find (has_username u.username) d.users in
      let existing = find (has_external c u.id) d.users in
      elim (Bool-cases (is_taken_by_other c u.id owner)) [
        | inl t ↦ rw (t, upsert_user) (inl refl)
        | inr t ↦ elim (Option-cases existing) [
          | inl e ↦ elim (Bool-cases (rotates u.password_hash owner)) [
            | inl r ↦ inr (inr (t, e, rw (t, e, upsert_user, r) refl))
            | inr r ↦ inr (inr (t, e, rw (t, e, upsert_user, r) refl))
          ]
          | inr (x, e) ↦ elim (Bool-cases (is_synced x.origin)) [
            | inr o ↦ inl (rw (t, e, upsert_user, o) refl)
            | inl o ↦ elim (Bool-cases (rotates u.password_hash owner)) [
              | inl r ↦ inr (inl (x, t, e, o, rw (t, e, upsert_user, o, r) refl))
              | inr r ↦ inr (inl (x, t, e, o, rw (t, e, upsert_user, o, r) refl))
            ]
          ]
        ]
      ]

  pub upsert_user-others :
      (d : Identity) (c : String) (u : ExternalUser)
      → ((upsert_user to_lower fresh d c u).0.entities ≡ d.entities)
        × ((upsert_user to_lower fresh d c u).0.members ≡ d.members)
  unfolding upsert_user upsert_row
  upsert_user-others d c u =
      let owner = find (has_username u.username) d.users in
      let existing = find (has_external c u.id) d.users in
      elim (Bool-cases (is_taken_by_other c u.id owner || is_manual existing)) [
        | inl t ↦ rw (t, upsert_user) (refl, refl)
        | inr t ↦ elim (Bool-cases (rotates u.password_hash owner)) [
          | inl r ↦ elim (Option-cases existing) [
            | inl e ↦ rw (t, r, e, upsert_user) (refl, refl)
            | inr (x, e) ↦ rw (t, r, e, upsert_user) (refl, refl)
          ]
          | inr r ↦ elim (Option-cases existing) [
            | inl e ↦ rw (t, r, e, upsert_user) (refl, refl)
            | inr (x, e) ↦ rw (t, r, e, upsert_user) (refl, refl)
          ]
        ]
      ]
