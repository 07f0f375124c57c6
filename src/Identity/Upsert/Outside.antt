-- ===== src/Identity/Upsert/Outside.antt =====
-- What the synchronisation of a source leaves alone: the rows made by hand, and those of the other
-- sources.
use nest_id_p.Base.{
  ◌≡◌, inl, inr, refl, ap, ◌∙◌, String, Bool, false, not, ◌&&◌, List, [], ◌∷◌, arith, keep,
}
use nest_id_p.Base.Eq.{◌==◌, nat_eq, string_eq, beq_refl}
use nest_id_p.Base.Rows.{
  keep-append, append-none, find-passes, keep-update_first, keep-update_where,
}
use nest_id_p.Sync.Errors.{Kind}
use nest_id_p.Sync.Directory.{ExternalUser, ExternalEntity}
use nest_id_p.Identity.Data.{Identity, User, Fresh, is_synced, has_external}
use nest_id_p.Identity.Upsert.{
  upsert_user, upsert_entity, upsert_named, written, created, deactivate_users_not_in_external_ids,
  replace_user_entities, delete_orphans, to_deactivate,
}
use nest_id_p.Identity.Upsert.Cases.{upsert_user-cases}

-- Not a synchronised row of the source.
abbrev pub is_outside : String → User → Bool
is_outside c u = not (u.api_connection_id == c && is_synced u.origin)

abbrev pub users_outside : String → Identity → List User
users_outside c d = keep (is_outside c) d.users

module _ (to_lower : String → String) (fresh : Fresh) where
  pub upsert_user-outside :
      (d : Identity) (c : String) (u : ExternalUser)
      → users_outside c (upsert_user to_lower fresh d c u).0 ≡ users_outside c d
  upsert_user-outside d c u = elim (upsert_user-cases to_lower fresh d c u) [
    | inl same ↦ ap (keep (is_outside c)) same
    | inr (inl (x, free, h, o, same)) ↦
        let passes = find-passes (has_external c u.id) d.users x h in
        let hidden : is_outside c x ≡ false = ground (arith, passes, o) in
        ap (keep (is_outside c)) same
        ∙ keep-update_first (is_outside c) (has_external c u.id) (written to_lower u) d.users x h
            hidden hidden
    | inr (inr (free, h, same)) ↦
        ap (keep (is_outside c)) same
        ∙ keep-append (is_outside c) d.users (created to_lower fresh d.next_id c u ∷ [])
        ∙ rw (beq_refl c) (append-none (users_outside c d))
  ]

pub upsert_entity-users :
    (fresh : Fresh) (d : Identity) (kind : Kind) (c : String) (e : ExternalEntity)
    → (upsert_entity fresh d kind c e).0.users ≡ d.users
unfolding upsert_entity upsert_named
upsert_entity-users fresh d kind c e = ground arith

pub replace_user_entities-users :
    (d : Identity) (kind : Kind) (user_id : String) (ids : List String)
    → (replace_user_entities d kind user_id ids).0.users ≡ d.users
unfolding replace_user_entities
replace_user_entities-users d kind user_id ids = ground arith

pub deactivate-outside :
    (d : Identity) (c : String) (seen : List String)
    → users_outside c (deactivate_users_not_in_external_ids d c seen).0 ≡ users_outside c d
unfolding deactivate_users_not_in_external_ids
deactivate-outside d c seen =
    keep-update_where (is_outside c) (to_deactivate c seen) (λ u. record u { active = false })
      d.users (λ u h. ground (arith, h))

pub delete_orphans-users :
    (d : Identity) (kind : Kind) (c : String) (seen : List String)
    → (delete_orphans d kind c seen).0.users ≡ d.users
unfolding delete_orphans
delete_orphans-users d kind c seen = refl
