-- ===== src/Sync/Memberships/Skips.antt =====
-- Which fetches of phase B make phase C spare a kind.
use nest_id_p.Base.{
  ◌≡◌, inl, inr, refl, ap, ◌∙◌, String, Bool, true, false, ◌&&◌, ◌||◌, Option, none, some, List, [],
  ◌∷◌, arith, Bool-cases, Option-cases,
}
use nest_id_p.Base.Eq.{nat_eq, string_eq, contains}
use nest_id_p.Base.Maps.{Map, get}
use nest_id_p.Sync.Errors.{
  Kind, group, role, kind_beq, Exception, done, Outcome-cases, push_membership_row_parse_error,
}
use nest_id_p.Sync.Counters.{SyncCounters, mark_seen, add_once, put, mark_membership_fetch_failed}
use nest_id_p.Sync.Directory.{Connection, Contract, Source, Directory, ExternalEntity}
use nest_id_p.Sync.Users.{RunState, ProcessedUser}
use nest_id_p.Sync.Memberships.{
  MembershipRaw, error_of, raw_of, apply_entity, apply_memberships, replace_entities, apply_kind,
  apply_user, apply_users,
}

abbrev pub is_some : Option Exception → Bool
is_some none = false
is_some (some e) = true

add_once-failed :
    (kind : Kind) (id : String) (c : SyncCounters)
    → (add_once kind id c).0.membership_fetch_failed ≡ c.membership_fetch_failed
unfolding add_once
add_once-failed kind id c = elim (Bool-cases (contains id (c.upserted kind))) [
  | inl h ↦ rw (h, add_once) refl
  | inr h ↦ rw (h, add_once) refl
]

module _ {Json D : Type 0} (contract : Contract Json) (source : Source Json)
    (store : Directory D) where
  -- Whether the fetch of a kind failed for one of the users.
  unfoldable pub any_failed :
      Kind → Map String (MembershipRaw Json) → List (ProcessedUser Json) → Bool
  any_failed kind ms [] = false
  any_failed kind ms (p ∷ ps) =
      is_some (error_of (get p.external_user_id ms) kind) || any_failed kind ms ps

  abbrev skips : RunState D → Kind → Bool
  skips s = s.counters.membership_fetch_failed

  apply_entity-skips :
      (connection : Connection) (dry_run : Bool) (kind : Kind) (user_id : String)
      (mapped : ExternalEntity) (s : RunState D)
      → skips (apply_entity contract source store connection dry_run kind user_id mapped s).0
        ≡ skips s
  unfolding apply_entity
  apply_entity-skips connection true kind user_id mapped s =
      add_once-failed kind mapped.id s.counters
  apply_entity-skips connection false kind user_id mapped s =
      elim (Outcome-cases (store.upsert_entity s.directory kind connection.id mapped).1) [
        | inl (id, e) ↦ rw (e, apply_entity) (add_once-failed kind mapped.id s.counters)
        | inr (x, e) ↦ rw (e, apply_entity) refl
      ]

  apply_memberships-skips :
      (connection : Connection) (dry_run : Bool) (kind : Kind) (user_id : String) (raws : List Json)
      (s : RunState D)
      → skips (apply_memberships contract source store connection dry_run kind user_id raws s).0
        ≡ skips s
  unfolding apply_memberships mark_seen
  apply_memberships-skips connection dry_run kind user_id [] s = refl
  apply_memberships-skips connection dry_run kind user_id (raw ∷ raws) s =
      elim (Outcome-cases (contract.map_entity_row kind raw)) [
        | inl (mapped, e) ↦
            let seen : RunState D = record s { counters = mark_seen kind mapped.id s.counters } in
            rw (e, apply_memberships)
              (apply_memberships-skips connection dry_run kind user_id raws
                  (apply_entity contract source store connection dry_run kind user_id mapped seen).0
                ∙ apply_entity-skips connection dry_run kind user_id mapped seen)
        | inr (x, e) ↦
            rw (e, apply_memberships)
              (apply_memberships-skips connection dry_run kind user_id raws
                (record s { errors = push_membership_row_parse_error s.errors kind user_id x }))
      ]

  replace_entities-skips :
      (dry_run : Bool) (kind : Kind) (local_id : Option String) (ids : List String) (s : RunState D)
      → skips (replace_entities contract source store dry_run kind local_id ids s).0 ≡ skips s
  unfolding replace_entities
  replace_entities-skips true kind local_id ids s = refl
  replace_entities-skips false kind none ids s = refl
  replace_entities-skips false kind (some local_id) ids s = refl

  put-skips : (k kind : Kind) (f : Kind → Bool) → put k true f kind ≡ (f kind || kind_beq k kind)
  put-skips group group f = ground arith
  put-skips group role f = ground arith
  put-skips role group f = ground arith
  put-skips role role f = ground arith

  apply_kind-skips :
      (connection : Connection) (dry_run : Bool) (p : ProcessedUser Json)
      (m : Option (MembershipRaw Json)) (k kind : Kind) (s : RunState D)
      → skips (apply_kind contract source store connection dry_run p m k s).0 kind
        ≡ (skips s kind || (is_some (error_of m k) && kind_beq k kind))
  unfolding apply_kind mark_membership_fetch_failed
  apply_kind-skips connection dry_run p m k kind s = elim (Option-cases (error_of m k)) [
    | inr (x, e) ↦ rw (e, apply_kind) (put-skips k kind (skips s))
    | inl e ↦ elim (Option-cases (raw_of m k)) [
      | inl r ↦ rw (e, r, apply_kind) (ground arith)
      | inr (raws, r) ↦
          let (applied, ids) =
            apply_memberships contract source store connection dry_run k p.external_user_id raws
              s in
          rw (e, r, apply_kind)
            (ap (λ (f : Kind → Bool). f kind)
                (replace_entities-skips dry_run k p.local_user_id ids applied
                  ∙ apply_memberships-skips connection dry_run k p.external_user_id raws s)
              ∙ ground arith)
    ]
  ]

  -- Both kinds of a user, one after the other.
  user-kinds :
      (connection : Connection) (dry_run : Bool) (p : ProcessedUser Json)
      (m : Option (MembershipRaw Json)) (kind : Kind) (s : RunState D)
      → skips
          (apply_kind contract source store connection dry_run p m role
            (apply_kind contract source store connection dry_run p m group s).0).0
          kind
        ≡ (skips s kind || is_some (error_of m kind))
  user-kinds connection dry_run p m group s =
      apply_kind-skips connection dry_run p m role group
        (apply_kind contract source store connection dry_run p m group s).0
      ∙ ground (arith, apply_kind-skips connection dry_run p m group group s)
  user-kinds connection dry_run p m role s =
      apply_kind-skips connection dry_run p m role role
        (apply_kind contract source store connection dry_run p m group s).0
      ∙ ground (arith, apply_kind-skips connection dry_run p m group role s)

  apply_user-skips :
      (connection : Connection) (dry_run : Bool) (p : ProcessedUser Json)
      (m : Option (MembershipRaw Json)) (kind : Kind) (s : RunState D)
      → (apply_user contract source store connection dry_run p m s).1 ≡ done tt
      → skips (apply_user contract source store connection dry_run p m s).0 kind
        ≡ (skips s kind || is_some (error_of m kind))
  unfolding apply_user
  apply_user-skips connection dry_run p m kind s h =
      let first = apply_kind contract source store connection dry_run p m group s in
      elim (Outcome-cases first.1) [
        | inl (u, e) ↦ rw (e, apply_user) (user-kinds connection dry_run p m kind s)
        | inr (x, e) ↦ let z = rw (e, apply_user) at h in ground (arith, z)
      ]

  pub apply_users-skips :
      (connection : Connection) (dry_run : Bool) (kind : Kind)
      (ms : Map String (MembershipRaw Json)) (ps : List (ProcessedUser Json)) (s : RunState D)
      → (apply_users contract source store connection dry_run ms ps s).1 ≡ done tt
      → skips (apply_users contract source store connection dry_run ms ps s).0 kind
        ≡ (skips s kind || any_failed kind ms ps)
  unfolding apply_users any_failed
  apply_users-skips connection dry_run kind ms [] s h = ground arith
  apply_users-skips connection dry_run kind ms (p ∷ ps) s h =
      let m = get p.external_user_id ms in
      let first = apply_user contract source store connection dry_run p m s in
      elim (Outcome-cases first.1) [
        | inl (u, e) ↦
            rw (e, apply_users)
              (apply_users-skips connection dry_run kind ms ps first.0 (rw (e, apply_users) at h)
                ∙ ground (arith, apply_user-skips connection dry_run p m kind s e))
        | inr (x, e) ↦ let z = rw (e, apply_users) at h in ground (arith, z)
      ]
