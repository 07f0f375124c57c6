-- ===== src/Sync/Memberships/Preserves.antt =====
-- What the operations of the identity store keep, phase B of a run keeps.
use nest_id_p.Sync.Counters.{mark_seen}
use nest_id_p.Base.{
  inl, inr, String, Bool, true, false, Option, none, some, List, [], ◌∷◌, Option-cases,
}
use nest_id_p.Base.Eq.{nat_eq, string_eq}
use nest_id_p.Base.Maps.{Map, get}
use nest_id_p.Sync.Errors.{Kind, group, role, Outcome-cases, push_membership_row_parse_error}
use nest_id_p.Sync.Directory.{Preserves, Connection, Contract, Source, Directory, ExternalEntity}
use nest_id_p.Sync.Users.{RunState, ProcessedUser}
use nest_id_p.Sync.Memberships.{
  apply_entity, apply_memberships, replace_entities, apply_kind, apply_user, apply_users,
  apply_user_memberships, MembershipRaw, gather_memberships, mark_seen, error_of, raw_of,
}

module _ {Json D : Type 0} (contract : Contract Json) (source : Source Json) (store : Directory D)
    (connection : Connection) (P : D → Type 0) (keeps : Preserves store connection.id P) where
  apply_entity-keeps :
      (dry_run : Bool) (kind : Kind) (user_id : String) (mapped : ExternalEntity) (s : RunState D)
      → P s.directory
      → P (apply_entity contract source store connection dry_run kind user_id mapped s).0.directory
  unfolding apply_entity
  apply_entity-keeps true kind user_id mapped s p = p
  apply_entity-keeps false kind user_id mapped s p =
      elim (Outcome-cases (store.upsert_entity s.directory kind connection.id mapped).1) [
        | inl (i, e) ↦ rw (e, apply_entity) (keeps.by_entity s.directory kind mapped p)
        | inr (x, e) ↦ rw (e, apply_entity) (keeps.by_entity s.directory kind mapped p)
      ]

  apply_memberships-keeps :
      (dry_run : Bool) (kind : Kind) (user_id : String) (raws : List Json) (s : RunState D)
      → P s.directory
      → P
          (apply_memberships contract source store connection dry_run kind user_id raws
            s).0.directory
  unfolding apply_memberships
  apply_memberships-keeps dry_run kind user_id [] s p = p
  apply_memberships-keeps dry_run kind user_id (raw ∷ raws) s p =
      elim (Outcome-cases (contract.map_entity_row kind raw)) [
        | inl (mapped, e) ↦
            let seen : RunState D = record s { counters = mark_seen kind mapped.id s.counters } in
            rw (e, apply_memberships)
              (apply_memberships-keeps dry_run kind user_id raws
                (apply_entity contract source store connection dry_run kind user_id mapped seen).0
                (apply_entity-keeps dry_run kind user_id mapped seen p))
        | inr (x, e) ↦
            rw (e, apply_memberships)
              (apply_memberships-keeps dry_run kind user_id raws
                (record s { errors = push_membership_row_parse_error s.errors kind user_id x }) p)
      ]

  replace_entities-keeps :
      (dry_run : Bool) (kind : Kind) (local_id : Option String) (ids : List String) (s : RunState D)
      → P s.directory
      → P (replace_entities contract source store dry_run kind local_id ids s).0.directory
  unfolding replace_entities
  replace_entities-keeps true kind local_id ids s p = p
  replace_entities-keeps false kind none ids s p = p
  replace_entities-keeps false kind (some i) ids s p = keeps.by_replace s.directory kind i ids p

  apply_kind-keeps :
      (dry_run : Bool) (u : ProcessedUser Json) (m : Option (MembershipRaw Json)) (kind : Kind)
      (s : RunState D)
      → P s.directory
      → P (apply_kind contract source store connection dry_run u m kind s).0.directory
  unfolding apply_kind
  apply_kind-keeps dry_run u m kind s p = elim (Option-cases (error_of m kind)) [
    | inr (x, e) ↦ rw (e, apply_kind) p
    | inl e ↦ elim (Option-cases (raw_of m kind)) [
      | inl r ↦ rw (e, r, apply_kind) p
      | inr (raws, r) ↦
          let applied =
            apply_memberships contract source store connection dry_run kind u.external_user_id raws
              s in
          rw (e, r, apply_kind)
            (replace_entities-keeps dry_run kind u.local_user_id applied.1 applied.0
              (apply_memberships-keeps dry_run kind u.external_user_id raws s p))
    ]
  ]

  apply_user-keeps :
      (dry_run : Bool) (u : ProcessedUser Json) (m : Option (MembershipRaw Json)) (s : RunState D)
      → P s.directory
      → P (apply_user contract source store connection dry_run u m s).0.directory
  unfolding apply_user
  apply_user-keeps dry_run u m s p =
      let first = apply_kind contract source store connection dry_run u m group s in
      let kept = apply_kind-keeps dry_run u m group s p in
      elim (Outcome-cases first.1) [
        | inl (v, e) ↦ rw (e, apply_user) (apply_kind-keeps dry_run u m role first.0 kept)
        | inr (x, e) ↦ rw (e, apply_user) kept
      ]

  apply_users-keeps :
      (dry_run : Bool) (ms : Map String (MembershipRaw Json)) (us : List (ProcessedUser Json))
      (s : RunState D)
      → P s.directory
      → P (apply_users contract source store connection dry_run ms us s).0.directory
  unfolding apply_users
  apply_users-keeps dry_run ms [] s p = p
  apply_users-keeps dry_run ms (u ∷ us) s p =
      let m = get u.external_user_id ms in
      let first = apply_user contract source store connection dry_run u m s in
      let kept = apply_user-keeps dry_run u m s p in
      elim (Outcome-cases first.1) [
        | inl (v, e) ↦ rw (e, apply_users) (apply_users-keeps dry_run ms us first.0 kept)
        | inr (x, e) ↦ rw (e, apply_users) kept
      ]

  -- Phase B.
  pub apply_user_memberships-keeps :
      (dry_run : Bool) (us : List (ProcessedUser Json)) (token : String) (s : RunState D)
      → P s.directory
      → P (apply_user_memberships contract source store connection dry_run us token s).0.directory
  unfolding apply_user_memberships
  apply_user_memberships-keeps dry_run us token s p =
      apply_users-keeps dry_run (gather_memberships contract source store token us []) us s p
