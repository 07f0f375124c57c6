-- ===== src/Sync/Memberships/Repeats.antt =====
-- A row that a source lists twice in a row among the memberships of one user.
use nest_id_p.Base.{
  ◌≡◌, refl, ap, ◌∙◌, String, false, ◌++◌, inl, inr, sym, Option, none, some, List, [], ◌∷◌,
}
use nest_id_p.Base.Eq.{nat_eq, string_eq}
use nest_id_p.Base.Rows.{append_assoc}
use nest_id_p.Sync.Errors.{Kind, done, Outcome-cases, push_membership_row_parse_error}
use nest_id_p.Sync.Counters.{mark_seen, add_once}
use nest_id_p.Sync.Directory.{Connection, Contract, Source, Directory, ExternalEntity}
use nest_id_p.Sync.Users.{RunState, ProcessedUser}
use nest_id_p.Sync.Memberships.{
  MembershipRaw, error_of, raw_of, apply_entity, apply_memberships, replace_entities, apply_kind,
}

module _ {Json D : Type 0} (contract : Contract Json) (source : Source Json) (store : Directory D)
    (connection : Connection) where
  apply_memberships-done :
      (kind : Kind) (external_user_id : String) (raw : Json) (raws : List Json) (e : ExternalEntity)
      (s : RunState D) (id : String)
      → contract.map_entity_row kind raw ≡ done e
      → (store.upsert_entity s.directory kind connection.id e).1 ≡ done id
      → (t : RunState D) × (t.directory ≡ (store.upsert_entity s.directory kind connection.id e).0)
        × (apply_memberships contract source store connection false kind external_user_id
              (raw ∷ raws)
              s
            ≡ (let (after, rest) =
                  apply_memberships contract source store connection false kind external_user_id
                    raws t in
                (after, id ∷ rest)))
  unfolding apply_memberships apply_entity
  apply_memberships-done kind external_user_id raw raws e s id mapped h =
      let written = (store.upsert_entity s.directory kind connection.id e).0 in
      let seen = mark_seen kind e.id s.counters in
      (
        record s { directory = written; counters = (add_once kind e.id seen).0 },
        refl,
        rw (mapped, apply_memberships, apply_entity, h) refl,
      )

  apply_memberships-append :
      (kind : Kind) (external_user_id : String) (before rows : List Json) (s : RunState D)
      → apply_memberships contract source store connection false kind external_user_id
          (before ++ rows)
          s
        ≡ (let (t, ids) =
              apply_memberships contract source store connection false kind external_user_id before
                s in
            let (u, rest) =
              apply_memberships contract source store connection false kind external_user_id rows
                t in
            (u, ids ++ rest))
  unfolding apply_memberships
  apply_memberships-append kind external_user_id [] rows s = refl
  apply_memberships-append kind external_user_id (raw ∷ before) rows s =
      elim (Outcome-cases (contract.map_entity_row kind raw)) [
        | inr (x, e) ↦
            rw (e, apply_memberships)
              (apply_memberships-append kind external_user_id before rows (record s {
                errors = push_membership_row_parse_error s.errors kind external_user_id x;
              }))
        | inl (mapped, e) ↦
            let seen : RunState D = record s { counters = mark_seen kind mapped.id s.counters } in
            let (applied, ids) =
              apply_entity contract source store connection false kind external_user_id mapped
                seen in
            let rest = apply_memberships-append kind external_user_id before rows applied in
            rw (e, apply_memberships)
              (ap (λ (r : RunState D × List String). (r.0, ids ++ r.1)) rest
                ∙ ap
                    (λ (l : List String). (
                      (apply_memberships contract source store connection false kind
                          external_user_id rows
                          (apply_memberships contract source store connection false kind
                            external_user_id before applied).0).0,
                      l,
                    ))
                    (sym (append_assoc ids _ _)))
      ]

  -- Where both upserts of the row succeed with one id, the id goes twice to the replacement.
  pub apply_kind-twice :
      (p : ProcessedUser Json) (m : Option (MembershipRaw Json)) (kind : Kind) (before : List Json)
      (raw : Json) (after : List Json) (e : ExternalEntity) (user_id id : String) (s : RunState D)
      → error_of m kind ≡ none
      → raw_of m kind ≡ some (before ++ raw ∷ raw ∷ after)
      → contract.map_entity_row kind raw ≡ done e
      → p.local_user_id ≡ some user_id
      → (store.upsert_entity
          (apply_memberships contract source store connection false kind p.external_user_id before
            s).0.directory
          kind
          connection.id
          e).1
        ≡ done id
      → (store.upsert_entity
          (store.upsert_entity
            (apply_memberships contract source store connection false kind p.external_user_id before
              s).0.directory
            kind
            connection.id
            e).0
          kind
          connection.id
          e).1
        ≡ done id
      → (d : D) × (ids : List String) × (rest : List String) × ((apply_kind contract source store
            connection false p m kind s).1
          ≡ (store.replace_user_entities d kind user_id (ids ++ id ∷ id ∷ rest)).1)
  unfolding apply_kind apply_memberships replace_entities
  apply_kind-twice p m kind before raw after e user_id id s no_error rows mapped local one two =
      let (b, ids) =
        apply_memberships contract source store connection false kind p.external_user_id before s in
      let (t, at_first, head) =
        apply_memberships-done kind p.external_user_id raw (raw ∷ after) e b id mapped one in
      let (v, at_second, tail) =
        apply_memberships-done kind p.external_user_id raw after e t id mapped
          (ap (λ (d : D). (store.upsert_entity d kind connection.id e).1) at_first ∙ two) in
      let last =
        apply_memberships contract source store connection false kind p.external_user_id after v in
      let listed =
        ap (λ (r : RunState D × List String). r.1)
          (head ∙ ap (λ (r : RunState D × List String). (r.0, id ∷ r.1)) tail) in
      let all =
        ap (λ (r : RunState D × List String). r.1)
          (apply_memberships-append kind p.external_user_id before (raw ∷ raw ∷ after) s)
        ∙ ap (λ (l : List String). ids ++ l) listed in
      let applied =
        apply_memberships contract source store connection false kind p.external_user_id
          (before ++ raw ∷ raw ∷ after) s in
      (
        applied.0.directory,
        ids,
        last.1,
        rw (no_error, apply_kind, rows, local)
            (ap
              (λ (l : List String).
                (replace_entities contract source store false kind (some user_id) l applied.0).1)
              all),
      )
