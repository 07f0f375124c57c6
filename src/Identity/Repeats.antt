-- ===== src/Identity/Repeats.antt =====
-- A group or role that a source lists twice in a row for one user, with the repository as the store: the
-- replacement in apps/api/src/identity/identity.repository.ts creates two memberships with one
-- primary key.
use nest_id_p.Base.{
  ◌≡◌, inl, inr, refl, ap, ◌∙◌, String, true, false, not, ◌&&◌, Option, none, some, List, [], ◌∷◌,
  ◌++◌, arith, Bool-cases, Option-cases, sym, ◌⊎◌, Bool,
}
use nest_id_p.Base.Eq.{◌==◌, nat_eq, string_eq, contains, beq_refl}
use nest_id_p.Base.Maps.{Map}
use nest_id_p.Base.Lists.{find, any}
use nest_id_p.Base.Rows.{find-append, update_first, find-update_first, find-passes}
use nest_id_p.Sync.Errors.{Kind, group, role, done, threw}
use nest_id_p.Sync.Counters.{put}
use nest_id_p.Sync.Directory.{Connection, Contract, Source, ExternalEntity}
use nest_id_p.Sync.Users.{RunState, ProcessedUser}
use nest_id_p.Sync.Memberships.{MembershipRaw, error_of, raw_of, apply_kind, apply_memberships}
use nest_id_p.Sync.Memberships.Repeats.{apply_kind-twice}
use nest_id_p.Identity.Data.{Identity, Entity, Fresh, synced, entity_has_external, entity_has_name}
use nest_id_p.Identity.Upsert.{
  repeats, upsert_entity, upsert_named, replace_user_entities, crosses_connections,
  cross_connection, constraint_failed,
}
use nest_id_p.Identity.Store.{repository}

repeats-twice :
    (before : List String) (id : String) (after : List String)
    → repeats (before ++ id ∷ id ∷ after) ≡ true
unfolding repeats contains
repeats-twice [] id after = rw (beq_refl id) refl
repeats-twice (i ∷ before) id after = ground (arith, repeats-twice before id after)

replace_user_entities-twice :
    (d : Identity) (kind : Kind) (user_id id : String) (before after : List String)
    → ((replace_user_entities d kind user_id (before ++ id ∷ id ∷ after)).1
        ≡ threw (cross_connection kind))
      ⊎ ((replace_user_entities d kind user_id (before ++ id ∷ id ∷ after)).1
          ≡ threw constraint_failed)
unfolding replace_user_entities
replace_user_entities-twice d kind user_id id before after =
    elim (Bool-cases (crosses_connections d kind user_id (before ++ id ∷ id ∷ after))) [
      | inl b ↦ inl (rw (b, replace_user_entities) refl)
      | inr b ↦ inr (rw (b, replace_user_entities, repeats-twice before id after) refl)
    ]

any-other :
    (c name : String) (rows : List Entity) (row : Entity)
    → any (entity_has_name c name) rows ≡ false
    → any (λ r. entity_has_name c name r && not (r.id == row.id)) (rows ++ row ∷ []) ≡ false
unfolding any
any-other c name [] row h = ground (arith, beq_refl row.id)
any-other c name (r ∷ rows) row h = ground (arith, any-other c name rows row)

put_same : (kind : Kind) (v : List Entity) (f : Kind → List Entity) → put kind v f kind ≡ v
put_same group v f = refl
put_same role v f = refl

upsert_entity-existing :
    (fresh : Fresh) (d : Identity) (kind : Kind) (c : String) (e : ExternalEntity) (row : Entity)
    → find (entity_has_external c e.id) (d.entities kind) ≡ some row
    → any (λ r. entity_has_name c e.name r && not (r.id == row.id)) (d.entities kind) ≡ false
    → (upsert_entity fresh d kind c e).1 ≡ done row.id
unfolding upsert_entity upsert_named
upsert_entity-existing fresh d kind c e row found others =
    rw (found, upsert_entity, upsert_named, others) refl

-- A new row is upserted again with the same id.
upsert_entity-twice :
    (fresh : Fresh) (d : Identity) (kind : Kind) (c : String) (e : ExternalEntity)
    → find (entity_has_external c e.id) (d.entities kind) ≡ none
    → any (entity_has_name c e.name) (d.entities kind) ≡ false
    → ((upsert_entity fresh d kind c e).1 ≡ done (fresh.id_of d.next_id))
      × ((upsert_entity fresh (upsert_entity fresh d kind c e).0 kind c e).1
          ≡ done (fresh.id_of d.next_id))
unfolding upsert_entity upsert_named
upsert_entity-twice fresh d kind c e new free =
    let row : Entity = record {
      id = fresh.id_of d.next_id;
      external_id = e.id;
      api_connection_id = c;
      origin = synced;
      name = e.name;
      created_at = fresh.time_of d.next_id;
    } in
    let own : entity_has_external c e.id row ≡ true = rw (beq_refl c, beq_refl e.id) refl in
    let found = find-append (entity_has_external c e.id) (d.entities kind) row new own in
    let others = any-other c e.name (d.entities kind) row free in
    let after = (upsert_entity fresh d kind c e).0 in
    let rows : after.entities kind ≡ d.entities kind ++ row ∷ [] =
      rw (new, upsert_entity, upsert_named, free)
        (put_same kind (d.entities kind ++ row ∷ []) d.entities) in
    (
      rw (new, upsert_entity, upsert_named, free) refl,
      upsert_entity-existing fresh after kind c e row
          (ap (find (entity_has_external c e.id)) rows ∙ found)
          (ap (any (λ r. entity_has_name c e.name r && not (r.id == row.id))) rows ∙ others),
    )

any-update_first :
    (p test : Entity → Bool) (change : Entity → Entity) (rows : List Entity) (row : Entity)
    → find test rows ≡ some row
    → p (change row) ≡ false
    → any p rows ≡ false
    → any p (update_first test change rows) ≡ false
unfolding any find update_first
any-update_first p test change [] row found own h = ground (arith, h)
any-update_first p test change (r ∷ rows) row found own h =
    ground (arith, any-update_first p test change rows row)

-- A row that is there is upserted again with the same id.
upsert_entity-again :
    (fresh : Fresh) (d : Identity) (kind : Kind) (c : String) (e : ExternalEntity) (row : Entity)
    → find (entity_has_external c e.id) (d.entities kind) ≡ some row
    → any (λ r. entity_has_name c e.name r && not (r.id == row.id)) (d.entities kind) ≡ false
    → (upsert_entity fresh (upsert_entity fresh d kind c e).0 kind c e).1 ≡ done row.id
unfolding upsert_entity upsert_named
upsert_entity-again fresh d kind c e row found others =
    let own = entity_has_external c e.id in
    let change : Entity → Entity = λ r. record r { name = e.name } in
    let other : Entity → Bool = λ r. entity_has_name c e.name r && not (r.id == row.id) in
    let after = (upsert_entity fresh d kind c e).0 in
    let rows : after.entities kind ≡ update_first own change (d.entities kind) =
      rw (found, upsert_entity, upsert_named, others)
        (put_same kind (update_first own change (d.entities kind)) d.entities) in
    upsert_entity-existing fresh after kind c e (change row)
      (ap (find own) rows
        ∙ find-update_first own change (d.entities kind) row found
            (find-passes own (d.entities kind) row found))
      (ap (any other) rows
        ∙ any-update_first other own change (d.entities kind) row found
            (ground (arith, beq_refl row.id)) others)

-- An upsert that succeeded succeeds again, with the same id.
upsert_entity-repeated :
    (fresh : Fresh) (d : Identity) (kind : Kind) (c : String) (e : ExternalEntity) (id : String)
    → (upsert_entity fresh d kind c e).1 ≡ done id
    → (upsert_entity fresh (upsert_entity fresh d kind c e).0 kind c e).1 ≡ done id
unfolding upsert_entity upsert_named
upsert_entity-repeated fresh d kind c e id h =
    elim (Option-cases (find (entity_has_external c e.id) (d.entities kind))) [
      | inl new ↦ elim (Bool-cases (any (entity_has_name c e.name) (d.entities kind))) [
        | inl taken ↦ let z = rw (new, upsert_entity, upsert_named, taken) at h in ground (arith, z)
        | inr free ↦
            let (one, two) = upsert_entity-twice fresh d kind c e new free in two ∙ (sym one ∙ h)
      ]
      | inr (row, found) ↦
          elim (Bool-cases
            (any (λ r. entity_has_name c e.name r && not (r.id == row.id)) (d.entities kind))) [
              | inl taken ↦
                  let z = rw (found, upsert_entity, upsert_named, taken) at h in ground (arith, z)
              | inr others ↦
                  upsert_entity-again fresh d kind c e row found others
                  ∙ (sym (upsert_entity-existing fresh d kind c e row found others) ∙ h)
            ]
    ]

-- Where a source lists a group or role twice in a row for one user, at any place of its list, and
-- the first of the two is upserted in a real run, the memberships of the user throw: their
-- replacement finds a membership across sources or fails on the primary key, though the row was
-- mapped and both its upserts succeeded.
pub apply_kind-repeated :
    {Json : Type 0} (to_lower : String → String) (fresh : Fresh)
    (connections : Map String Connection) (contract : Contract Json) (source : Source Json)
    (c : Connection) (p : ProcessedUser Json) (m : Option (MembershipRaw Json)) (kind : Kind)
    (before : List Json) (raw : Json) (after : List Json) (e : ExternalEntity) (user_id id : String)
    (s : RunState Identity)
    → error_of m kind ≡ none
    → raw_of m kind ≡ some (before ++ raw ∷ raw ∷ after)
    → contract.map_entity_row kind raw ≡ done e
    → p.local_user_id ≡ some user_id
    → (upsert_entity fresh
        (apply_memberships contract source
          (repository to_lower fresh connections)
          c
          false
          kind
          p.external_user_id
          before
          s).0.directory
        kind
        c.id
        e).1
      ≡ done id
    → ((apply_kind contract source (repository to_lower fresh connections) c false p m kind s).1
        ≡ threw (cross_connection kind))
      ⊎ ((apply_kind contract source (repository to_lower fresh connections) c false p m kind s).1
          ≡ threw constraint_failed)
apply_kind-repeated to_lower fresh connections contract source c p m kind before raw after e user_id
      id s no_error rows mapped local one =
    let reached =
      (apply_memberships contract source (repository to_lower fresh connections) c false kind
        p.external_user_id before s).0.directory in
    let (d, ids, rest, same) =
      apply_kind-twice contract source (repository to_lower fresh connections) c p m kind before raw
        after e user_id id s no_error rows mapped local one
        (upsert_entity-repeated fresh reached kind c.id e id one) in
    elim (replace_user_entities-twice d kind user_id id ids rest) [
      | inl crossed ↦ inl (same ∙ crossed)
      | inr failed ↦ inr (same ∙ failed)
    ]
