-- ===== src/Sync/Memberships/Laws.antt =====
-- What phase B of a run does to the identity store and to the counters.
use nest_id_p.Base.{◌≡◌, inl, inr, refl, ◌∙◌, String, true, Option, List, [], ◌∷◌, Option-cases}
use nest_id_p.Base.Eq.{nat_eq, string_eq}
use nest_id_p.Base.Maps.{Map, get}
use nest_id_p.Sync.Errors.{Kind, group, role, Outcome-cases, push_membership_row_parse_error}
use nest_id_p.Sync.Counters.{mark_seen}
use nest_id_p.Sync.Directory.{Connection, Contract, Source, Directory}
use nest_id_p.Sync.Users.{RunState, ProcessedUser}
use nest_id_p.Sync.Memberships.{
  MembershipRaw, error_of, raw_of, gather_memberships, apply_entity, apply_memberships,
  replace_entities, apply_kind, apply_user, apply_users, apply_user_memberships,
}

module _ {Json D : Type 0} (contract : Contract Json) (source : Source Json)
    (store : Directory D) where
  apply_memberships-dry :
      (connection : Connection) (kind : Kind) (user_id : String) (raws : List Json) (s : RunState D)
      → (apply_memberships contract source store connection true kind user_id raws s).0.directory
        ≡ s.directory
  unfolding apply_memberships apply_entity
  apply_memberships-dry connection kind user_id [] s = refl
  apply_memberships-dry connection kind user_id (raw ∷ raws) s =
      elim (Outcome-cases (contract.map_entity_row kind raw)) [
        | inl (mapped, e) ↦
            rw (e, apply_memberships)
              (apply_memberships-dry connection kind user_id raws
                (apply_entity contract source store connection true kind user_id mapped
                  (record s { counters = mark_seen kind mapped.id s.counters })).0)
        | inr (x, e) ↦
            rw (e, apply_memberships)
              (apply_memberships-dry connection kind user_id raws
                (record s { errors = push_membership_row_parse_error s.errors kind user_id x }))
      ]

  apply_kind-dry :
      (connection : Connection) (p : ProcessedUser Json) (m : Option (MembershipRaw Json))
      (kind : Kind) (s : RunState D)
      → (apply_kind contract source store connection true p m kind s).0.directory ≡ s.directory
  unfolding apply_kind replace_entities
  apply_kind-dry connection p m kind s = elim (Option-cases (error_of m kind)) [
    | inr (x, e) ↦ rw (e, apply_kind) refl
    | inl e ↦ elim (Option-cases (raw_of m kind)) [
      | inl r ↦ rw (e, r, apply_kind) refl
      | inr (raws, r) ↦
          rw (e, r, apply_kind) (apply_memberships-dry connection kind p.external_user_id raws s)
    ]
  ]

  apply_user-dry :
      (connection : Connection) (p : ProcessedUser Json) (m : Option (MembershipRaw Json))
      (s : RunState D)
      → (apply_user contract source store connection true p m s).0.directory ≡ s.directory
  unfolding apply_user
  apply_user-dry connection p m s =
      let first = apply_kind contract source store connection true p m group s in
      elim (Outcome-cases first.1) [
        | inl (u, e) ↦
            rw (e, apply_user)
              (apply_kind-dry connection p m role first.0 ∙ apply_kind-dry connection p m group s)
        | inr (x, e) ↦ rw (e, apply_user) (apply_kind-dry connection p m group s)
      ]

  apply_users-dry :
      (connection : Connection) (ms : Map String (MembershipRaw Json))
      (ps : List (ProcessedUser Json)) (s : RunState D)
      → (apply_users contract source store connection true ms ps s).0.directory ≡ s.directory
  unfolding apply_users
  apply_users-dry connection ms [] s = refl
  apply_users-dry connection ms (p ∷ ps) s =
      let m = get p.external_user_id ms in
      let first = apply_user contract source store connection true p m s in
      elim (Outcome-cases first.1) [
        | inl (u, e) ↦
            rw (e, apply_users)
              (apply_users-dry connection ms ps first.0 ∙ apply_user-dry connection p m s)
        | inr (x, e) ↦ rw (e, apply_users) (apply_user-dry connection p m s)
      ]

  -- Phase B changes nothing in the identity store on a dry run.
  pub apply_user_memberships-dry :
      (connection : Connection) (processed : List (ProcessedUser Json)) (token : String)
      (s : RunState D)
      → (apply_user_memberships contract source store connection true processed token s).0.directory
        ≡ s.directory
  unfolding apply_user_memberships
  apply_user_memberships-dry connection processed token s =
      apply_users-dry connection (gather_memberships contract source store token processed [])
        processed s
