-- ===== src/Sync/Memberships.antt =====
-- apps/api/src/sync/services/sync.service.ts, phase B of a run: the memberships of the users that
-- phase A went through. The fetches are pure here, so that their order, which the bounded pool of
-- `gatherMemberships` leaves open, changes nothing.
pub mod Laws
pub mod Orphans
pub mod Preserves
pub mod Repeats
pub mod Skips
use nest_id_p.Base.{
  ℕ, zero, suc, ◌+◌, ◌-◌, ◌*◌, ◌^◌, ◌≤◌, ◌<◌, ◌≡◌, ◌≢◌, ◌↔◌, ◌⊎◌, inl, inr, refl, sym, ap, ◌∙◌, min,
  max, String, Bool, true, false, not, ◌&&◌, ◌||◌, Option, none, some, List, [], ◌∷◌, ◌++◌, map,
  arith, leb, ltb, nat_beq, if◌then◌else◌, length, take, keep, All, Bool-cases, Option-cases,
}
use nest_id_p.Base.Eq.{Eq, ◌==◌, nat_eq, string_eq, contains, beq_refl, beq-false}
use nest_id_p.Base.Maps.{Map, get, set, delete, retain}
use nest_id_p.Base.Text.{Text, codes}
use nest_id_p.Sync.Errors.{
  Kind, group, role, Message, Exception, Outcome, done, threw, ErrorEntry, entry, add,
  push_membership_fetch_error, push_membership_row_parse_error, push_upsert_entity_error,
}
use nest_id_p.Sync.Counters.{SyncCounters, mark_seen, add_once, mark_membership_fetch_failed}
use nest_id_p.Sync.Directory.{Connection, Contract, Source, Directory, ExternalEntity}
use nest_id_p.Sync.Users.{RunState, ProcessedUser}

pub record MembershipRaw (Json : Type 0) : Type 0 where
  pub raw_by_kind : Kind → Option (List Json)
  pub error_by_kind : Kind → Option Exception

-- `m?.errorByKind[kind]` and `m?.rawByKind[kind]`.
abbrev pub error_of : {Json : Type 0} → Option (MembershipRaw Json) → Kind → Option Exception
error_of none kind = none
error_of (some m) kind = m.error_by_kind kind

abbrev pub raw_of : {Json : Type 0} → Option (MembershipRaw Json) → Kind → Option (List Json)
raw_of none kind = none
raw_of (some m) kind = m.raw_by_kind kind

module _ {Json D : Type 0} (contract : Contract Json) (source : Source Json)
    (store : Directory D) where
  abbrev pub array_of : Option Json → List Json
  array_of none = []
  array_of (some value) = elim (contract.as_array value) [ none ↦ [] | some rows ↦ rows ]

  pub extract_embedded : Json → Kind → List Json
  extract_embedded row kind =
      let rows = array_of (contract.embedded_value kind row) in
      elim (contract.embedded_cap kind) [ none ↦ rows | some cap ↦ take cap rows ]

  gather_kind : String → ProcessedUser Json → Kind → Option (List Json) × Option Exception
  unfolding extract_embedded
  gather_kind token p kind =
      if contract.embedded kind
      then (some (extract_embedded p.raw_row kind), none)
      else (elim (source.fetch_entities_raw kind token p.external_user_id) [
        | done rows ↦ (some rows, none)
        | threw e ↦ (none, some e)
      ])

  -- The worker of `gatherMemberships`.
  unfoldable pub gather_user : String → ProcessedUser Json → MembershipRaw Json
  unfolding gather_kind
  gather_user token p = record {
    raw_by_kind = λ kind. (gather_kind token p kind).0;
    error_by_kind = λ kind. (gather_kind token p kind).1;
  }

  unfoldable pub gather_memberships :
      String
      → List (ProcessedUser Json)
      → Map String (MembershipRaw Json)
      → Map String (MembershipRaw Json)
  unfolding gather_user
  gather_memberships token [] result = result
  gather_memberships token (p ∷ ps) result =
      gather_memberships token ps (set p.external_user_id (gather_user token p) result)

  -- An upsert of a row that was mapped and marked; the id of its row where it succeeds.
  unfoldable pub apply_entity :
      Connection → Bool → Kind → String → ExternalEntity → RunState D → RunState D × List String
  apply_entity connection dry_run kind external_user_id mapped s =
      if dry_run
      then (record s { counters = (add_once kind mapped.id s.counters).0 }, [])
      else (let (directory, result) = store.upsert_entity s.directory kind connection.id mapped in
          let written = record s { directory = directory } in
          elim result [
            | done row_id ↦ (
              record written { counters = (add_once kind mapped.id written.counters).0 },
              row_id ∷ [],
            )
            | threw e ↦ (
              record written {
                errors = push_upsert_entity_error written.errors kind external_user_id mapped.id e;
              },
              [],
            )
          ])

  unfoldable pub apply_memberships :
      Connection → Bool → Kind → String → List Json → RunState D → RunState D × List String
  unfolding apply_entity
  apply_memberships connection dry_run kind external_user_id [] s = (s, [])
  apply_memberships connection dry_run kind external_user_id (raw ∷ raws) s =
      elim (contract.map_entity_row kind raw) [
        | threw e ↦
            apply_memberships connection dry_run kind external_user_id raws (record s {
              errors = push_membership_row_parse_error s.errors kind external_user_id e;
            })
        | done mapped ↦
            (let seen = record s { counters = mark_seen kind mapped.id s.counters } in
              let (applied, ids) =
                apply_entity connection dry_run kind external_user_id mapped seen in
              let (after, rest) =
                apply_memberships connection dry_run kind external_user_id raws applied in
              (after, ids ++ rest))
      ]

  replace_entities :
      Bool → Kind → Option String → List String → RunState D → RunState D × Outcome {0} Unit
  replace_entities true kind local_id ids s = (s, done tt)
  replace_entities false kind none ids s = (s, done tt)
  replace_entities false kind (some local_id) ids s =
      let (directory, result) = store.replace_user_entities s.directory kind local_id ids in
      (record s { directory = directory }, result)

  -- One kind of one user.
  pub apply_kind :
      Connection
      → Bool
      → ProcessedUser Json
      → Option (MembershipRaw Json)
      → Kind
      → RunState D
      → RunState D × Outcome {0} Unit
  unfolding apply_memberships replace_entities
  apply_kind connection dry_run p m kind s = elim (error_of m kind) [
    | some e ↦ (
      record s {
        errors = push_membership_fetch_error s.errors kind p.external_user_id e;
        counters = mark_membership_fetch_failed kind s.counters;
      },
      done tt,
    )
    | none ↦ elim (raw_of m kind) [
      | none ↦ (s, done tt)
      | some raws ↦
          (let (applied, ids) =
              apply_memberships connection dry_run kind p.external_user_id raws s in
            replace_entities dry_run kind p.local_user_id ids applied)
    ]
  ]

  -- The groups of a user, then the roles.
  apply_user :
      Connection
      → Bool
      → ProcessedUser Json
      → Option (MembershipRaw Json)
      → RunState D
      → RunState D × Outcome {0} Unit
  unfolding apply_kind
  apply_user connection dry_run p m s =
      let (grouped, result) = apply_kind connection dry_run p m group s in
      elim result [
        | threw e ↦ (grouped, threw e)
        | done u ↦ apply_kind connection dry_run p m role grouped
      ]

  unfoldable pub apply_users :
      Connection
      → Bool
      → Map String (MembershipRaw Json)
      → List (ProcessedUser Json)
      → RunState D
      → RunState D × Outcome {0} Unit
  unfolding apply_user
  apply_users connection dry_run memberships [] s = (s, done tt)
  apply_users connection dry_run memberships (p ∷ ps) s =
      let (applied, result) =
        apply_user connection dry_run p (get p.external_user_id memberships) s in
      elim result [
        | threw e ↦ (applied, threw e)
        | done u ↦ apply_users connection dry_run memberships ps applied
      ]

  unfoldable pub apply_user_memberships :
      Connection
      → Bool
      → List (ProcessedUser Json)
      → String
      → RunState D
      → RunState D × Outcome {0} Unit
  unfolding apply_users
  apply_user_memberships connection dry_run processed token s =
      apply_users connection dry_run (gather_memberships token processed []) processed s
