-- ===== src/Sync/Memberships/Orphans.antt =====
-- Which kinds phase C spares, after the fetches of phase B.
use nest_id_p.Base.{
  ◌≡◌, inl, inr, refl, ap, ◌∙◌, String, Bool, true, false, ◌||◌, Option, some, List, [], ◌∷◌, arith,
  Bool-cases, map, if-true, if-false, if◌then◌else◌,
}
use nest_id_p.Base.Eq.{nat_eq, string_eq, contains, beq_refl, ◌==◌}
use nest_id_p.Base.Maps.{Map, get, set, get-set}
use nest_id_p.Sync.Errors.{Kind, done, Outcome-cases, threw}
use nest_id_p.Sync.Counters.{should_skip_orphan_deletion}
use nest_id_p.Sync.Directory.{Connection, Contract, Source, Directory}
use nest_id_p.Sync.Users.{RunState, ProcessedUser}
use nest_id_p.Sync.Memberships.Skips.{is_some, any_failed, apply_users-skips}
use nest_id_p.Sync.Memberships.{
  MembershipRaw, error_of, gather_user, gather_kind, gather_memberships, apply_user_memberships,
}

if_same : (b x : Bool) → (if b then x else x) ≡ x
if_same true x = refl
if_same false x = refl

or-left : {a : Bool} (b : Bool) → a ≡ true → (a || b) ≡ true
or-left b h = ground (arith, h)

or-right : (a : Bool) {b : Bool} → b ≡ true → (a || b) ≡ true
or-right a h = ground (arith, h)

beq_eq : (a b : String) → (a == b) ≡ true → a ≡ b
beq_eq a b h = (string_eq.beq_iff a b).0 h

module _ {Json D : Type 0} (contract : Contract Json) (source : Source Json)
    (store : Directory D) where
  -- Whether the source throws, where it is asked for the rows of a kind of a user. Rows that come
  -- with the user are not fetched.
  abbrev pub fetch_throws : Kind → String → String → Bool
  fetch_throws kind token id =
      if contract.embedded kind
      then false
      else (elim (source.fetch_entities_raw kind token id) [ done rows ↦ false | threw e ↦ true ])

  pub any_throws : Kind → String → List (ProcessedUser Json) → Bool
  any_throws kind token [] = false
  any_throws kind token (p ∷ ps) =
      fetch_throws kind token p.external_user_id || any_throws kind token ps

  abbrev ids_of : List (ProcessedUser Json) → List String
  ids_of ps = map (λ p. p.external_user_id) ps

  error-gather_kind :
      (kind : Kind) (token : String) (p : ProcessedUser Json)
      → is_some (gather_kind contract source store token p kind).1
        ≡ fetch_throws kind token p.external_user_id
  unfolding gather_kind
  error-gather_kind kind token p = elim (Bool-cases (contract.embedded kind)) [
    | inl b ↦ rw (b, gather_kind) refl
    | inr b ↦ elim (Outcome-cases (source.fetch_entities_raw kind token p.external_user_id)) [
      | inl (rows, e) ↦ rw (b, gather_kind, e) refl
      | inr (x, e) ↦ rw (b, gather_kind, e) refl
    ]
  ]

  error-gather_user :
      (kind : Kind) (token : String) (p : ProcessedUser Json)
      → is_some (error_of (some (gather_user contract source store token p)) kind)
        ≡ fetch_throws kind token p.external_user_id
  unfolding gather_user
  error-gather_user kind token p = error-gather_kind kind token p

  -- What was gathered of a user, after all the workers.
  error-gather_memberships :
      (kind : Kind) (token id : String) (ps : List (ProcessedUser Json))
      (ms : Map String (MembershipRaw Json))
      → is_some (error_of (get id (gather_memberships contract source store token ps ms)) kind) ≡ (
          if contains id (ids_of ps)
          then fetch_throws kind token id
          else is_some (error_of (get id ms) kind))
  unfolding gather_memberships contains
  error-gather_memberships kind token id [] ms = refl
  error-gather_memberships kind token id (p ∷ ps) ms =
      let gathered = gather_user contract source store token p in
      let after = set p.external_user_id gathered ms in
      let rest = error-gather_memberships kind token id ps after in
      let stored = get-set p.external_user_id id gathered ms in
      elim (Bool-cases (p.external_user_id == id)) [
        | inr other ↦ rw other (
            rest
            ∙ ap
                (λ (m : Option (MembershipRaw Json)).
                  if contains id (ids_of ps)
                  then fetch_throws kind token id
                  else is_some (error_of m kind))
                (stored ∙ if-false _ _ _ other))
        | inl own ↦ rw own (
            rest
            ∙ ap
                (λ (m : Option (MembershipRaw Json)).
                  if contains id (ids_of ps)
                  then fetch_throws kind token id
                  else is_some (error_of m kind))
                (stored ∙ if-true _ _ _ own)
            ∙ ap (λ (b : Bool). if contains id (ids_of ps) then fetch_throws kind token id else b)
                (error-gather_user kind token p
                  ∙ ap (λ (i : String). fetch_throws kind token i)
                      (beq_eq p.external_user_id id own))
            ∙ if_same (contains id (ids_of ps)) (fetch_throws kind token id))
      ]

  any_failed-throws :
      (kind : Kind) (token : String) (ms : Map String (MembershipRaw Json))
      (ps : List (ProcessedUser Json))
      → ((id : String)
          → contains id (ids_of ps) ≡ true
          → is_some (error_of (get id ms) kind) ≡ fetch_throws kind token id)
      → any_failed contract source store kind ms ps ≡ any_throws kind token ps
  unfolding any_failed any_throws contains
  any_failed-throws kind token ms [] h = refl
  any_failed-throws kind token ms (p ∷ ps) h =
      ap (λ (b : Bool). b || any_failed contract source store kind ms ps)
        (h p.external_user_id (or-left _ (beq_refl p.external_user_id)))
      ∙ ap (λ (b : Bool). fetch_throws kind token p.external_user_id || b)
          (any_failed-throws kind token ms ps
            (λ id among. h id (or-right (p.external_user_id == id) among)))

  any_failed-gathered :
      (kind : Kind) (token : String) (ps : List (ProcessedUser Json))
      → any_failed contract source store kind
          (gather_memberships contract source store token ps [])
          ps
        ≡ any_throws kind token ps
  any_failed-gathered kind token ps =
      any_failed-throws kind token (gather_memberships contract source store token ps []) ps
        (λ id among.
          error-gather_memberships kind token id ps []
          ∙ if-true (contains id (ids_of ps)) _ _ among)

  -- Where phase B completes, the deletion of orphans of a kind is to be skipped exactly if it was
  -- before or the source throws at the fetch of that kind for at least one user.
  pub should_skip-apply_user_memberships :
      (connection : Connection) (dry_run : Bool) (kind : Kind)
      (processed : List (ProcessedUser Json)) (token : String) (s : RunState D)
      → (apply_user_memberships contract source store connection dry_run processed token s).1
        ≡ done tt
      → should_skip_orphan_deletion kind
          (apply_user_memberships contract source store connection dry_run processed token
            s).0.counters
        ≡ (should_skip_orphan_deletion kind s.counters || any_throws kind token processed)
  unfolding apply_user_memberships should_skip_orphan_deletion
  should_skip-apply_user_memberships connection dry_run kind processed token s h =
      apply_users-skips contract source store connection dry_run kind
        (gather_memberships contract source store token processed []) processed s h
      ∙ ap (λ (b : Bool). s.counters.membership_fetch_failed kind || b)
          (any_failed-gathered kind token processed)
