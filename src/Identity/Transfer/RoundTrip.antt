-- ===== src/Identity/Transfer/RoundTrip.antt =====
-- An export that is imported into an empty store.
use nest_id_p.Base.{
  ℕ, zero, suc, ◌+◌, ◌≤◌, ◌≡◌, refl, sym, ap, ◌∙◌, String, Bool, true, not, some, List, [], ◌∷◌,
  ◌++◌, map, arith, length, take, keep,
}
use nest_id_p.Base.Eq.{nat_eq, string_eq, contains}
use mathlib.Core.Path.{subst}
use nest_id_p.Base.Lists.{drop}
use nest_id_p.Base.{if-true}
use nest_id_p.Base.Rows.{append-none, append_assoc}
use nest_id_p.Sync.Errors.{Kind, group, role, Outcome, done, threw}
use nest_id_p.Sync.Counters.{put}
use nest_id_p.Identity.Data.{Identity, User, Entity, Member}
use nest_id_p.Identity.Manual.{member_fits, add_members, create_members}
use nest_id_p.Identity.Transfer.{
  ImportMode, Loop, chunks, chunk, import_row, import_rows, import_parts, import_members,
  one_inserted, tick, member_key,
}

-- Each row fits beside those of the table and those before it.
abbrev pub Fitting : {R : Type 0} → (List R → R → Bool) → List R → List R → Type 0
Fitting row_fits table [] = Unit
Fitting row_fits table (r ∷ rs) = (row_fits table r ≡ true) × Fitting row_fits (table ++ r ∷ []) rs

module _ {R : Type 0} (row_fits : List R → R → Bool) where
  Fitting-split :
      (table xs ys : List R)
      → Fitting row_fits table (xs ++ ys)
      → Fitting row_fits table xs × Fitting row_fits (table ++ xs) ys
  Fitting-split table [] ys h =
      (tt, subst (λ (t : List R). Fitting row_fits t ys) (sym (append-none table)) h)
  Fitting-split table (x ∷ xs) ys (h, rest) =
      let (left, right) = Fitting-split (table ++ x ∷ []) xs ys rest in
      (
        (h, left),
        subst (λ (t : List R). Fitting row_fits t ys) (append_assoc table (x ∷ []) xs) right,
      )

  module _ (row_id : R → String) (overwrite : R → R → R) (mode : ImportMode) (total : ℕ) where
    import_row-Fitting :
        (r : R) (s : Loop R)
        → row_fits s.table r ≡ true
        → import_row row_id row_fits overwrite mode total [] r s ≡ (
          record {
            table = s.table ++ r ∷ [];
            counts = one_inserted s.counts;
            progress = tick total s.progress;
          },
          done tt,
        )
    unfolding import_row contains
    import_row-Fitting r s h = if-true (row_fits s.table r) _ _ h

    -- The loop went through, and the rows were all inserted.
    abbrev pub Inserts : List R → Loop R → Loop R × Outcome {0} Unit → Type 0
    Inserts rs s v =
        (v.0.table ≡ s.table ++ rs)
        × (v.0.counts ≡ record s.counts { inserted = s.counts.inserted + length rs })
        × (v.1 ≡ done tt)

    -- Rows that fit are all inserted where no id is known before.
    pub import_rows-Fitting :
        (rs : List R) (s : Loop R)
        → Fitting row_fits s.table rs
        → Inserts rs s (import_rows row_id row_fits overwrite mode total [] rs s)
    unfolding import_rows
    import_rows-Fitting [] s h = (
      sym (append-none s.table),
      ap (λ (n : ℕ). record s.counts { inserted = n }) (omega arith),
      refl,
    )
    import_rows-Fitting (r ∷ rs) s (h, rest) =
        let next : Loop R = record {
          table = s.table ++ r ∷ [];
          counts = one_inserted s.counts;
          progress = tick total s.progress;
        } in
        let (table, counts, result) = import_rows-Fitting rs next rest in
        subst
          (λ (v : Loop R × Outcome {0} Unit). Inserts (r ∷ rs) s (elim v.1 [
            | threw x ↦ (v.0, threw x)
            | done u ↦ import_rows row_id row_fits overwrite mode total [] rs v.0
          ]))
          (sym (import_row-Fitting r s h))
          (
            table ∙ append_assoc s.table (r ∷ []) rs,
            counts ∙ ap (λ (n : ℕ). record s.counts { inserted = n }) (omega arith),
            result,
          )

add_members-Fitting :
    (users : List User) (entities : List Entity) (ms rows : List Member)
    → Fitting (member_fits users entities) rows ms
    → add_members users entities ms rows ≡ some (rows ++ ms)
unfolding add_members
add_members-Fitting users entities [] rows h = ap some (sym (append-none rows))
add_members-Fitting users entities (m ∷ ms) rows (h, rest) =
    rw (h, add_members)
      (add_members-Fitting users entities ms (rows ++ m ∷ []) rest
        ∙ ap some (append_assoc rows (m ∷ []) ms))

abbrev pub concat : {A : Type 0} → List (List A) → List A
concat [] = []
concat (x ∷ xs) = x ++ concat xs

take-drop : {A : Type 0} (n : ℕ) (xs : List A) → take n xs ++ drop n xs ≡ xs
take-drop zero xs = refl
take-drop (suc n) [] = refl
take-drop (suc n) (x ∷ xs) = ap (λ (l : List _). x ∷ l) (take-drop n xs)

length-drop-le : {A : Type 0} (n : ℕ) (xs : List A) → length (drop n xs) ≤ length xs
length-drop-le zero xs = omega arith
length-drop-le (suc n) [] = omega arith
length-drop-le (suc n) (x ∷ xs) = omega (arith, length-drop-le n xs)

-- The parts of a list are the list: the loop takes at least one item a turn.
concat-chunks :
    {A : Type 0} (n size : ℕ) (xs : List A) → length xs ≤ n → concat (chunks n (suc size) xs) ≡ xs
unfolding chunks
concat-chunks zero size [] le = refl
concat-chunks zero size (x ∷ xs) le = ground (arith, le)
concat-chunks (suc n) size [] le = refl
concat-chunks (suc n) size (x ∷ xs) le =
    ap (λ (l : List _). take (suc size) (x ∷ xs) ++ l)
      (concat-chunks n size (drop size xs) (omega (arith, le, length-drop-le size xs)))
    ∙ take-drop (suc size) (x ∷ xs)

abbrev pub other : Kind → Kind
other group = role
other role = group

-- The memberships of a kind were added, and nothing else was written.
abbrev pub Joins : Kind → List Member → Identity → Identity × Outcome {0} Unit → Type 0
Joins kind ms d v =
    (v.1 ≡ done tt)
    × (v.0.users ≡ d.users)
    × (v.0.entities ≡ d.entities)
    × (v.0.members kind ≡ d.members kind ++ ms)
    × (v.0.members (other kind) ≡ d.members (other kind))

pub put-kind :
    {A : Type 0} (kind : Kind) (v : A) (f : Kind → A)
    → (put kind v f kind ≡ v) × (put kind v f (other kind) ≡ f (other kind))
put-kind group v f = (refl, refl)
put-kind role v f = (refl, refl)

create_members-Joins :
    (kind : Kind) (ms : List Member) (d : Identity)
    → Fitting (member_fits d.users (d.entities kind)) (d.members kind) ms
    → Joins kind ms d (create_members kind ms d)
unfolding create_members
create_members-Joins kind ms d h =
    let (own, others) = put-kind kind (d.members kind ++ ms) d.members in
    rw (add_members-Fitting d.users (d.entities kind) ms (d.members kind) h, create_members)
      (refl, refl, refl, own, others)

-- The references and the key of memberships depend on three tables.
pub Fitting-tables :
    {us vs : List User} {es fs : List Entity} {ms ns : List Member} (new : List Member)
    → us ≡ vs
    → es ≡ fs
    → ms ≡ ns
    → Fitting (member_fits us es) ms new
    → Fitting (member_fits vs fs) ns new
Fitting-tables {us} {vs} {es} {fs} {ms} {ns} new users entities members h =
    subst (λ (l : List Member). Fitting (member_fits vs fs) l new) members
      (subst (λ (l : List Entity). Fitting (member_fits vs l) ms new) entities
        (subst (λ (l : List User). Fitting (member_fits l es) ms new) users h))

import_parts-Joins :
    (kind : Kind) (parts : List (List Member)) (d : Identity)
    → Fitting (member_fits d.users (d.entities kind)) (d.members kind) (concat parts)
    → Joins kind (concat parts) d (import_parts kind parts d)
unfolding import_parts
import_parts-Joins kind [] d h = (refl, refl, refl, sym (append-none (d.members kind)), refl)
import_parts-Joins kind (part ∷ parts) d h =
    let (left, right) =
      Fitting-split (member_fits d.users (d.entities kind)) (d.members kind) part (concat parts)
        h in
    let next = (create_members kind part d).0 in
    let (ok, users, entities, own, others) = create_members-Joins kind part d left in
    let (ok2, users2, entities2, own2, others2) = import_parts-Joins kind parts next (
      Fitting-tables (concat parts) (sym users)
        (ap (λ (f : Kind → List Entity). f kind) (sym entities)) (sym own) right) in
    rw (ok, import_parts)
      (
        ok2,
        users2 ∙ users,
        entities2 ∙ entities,
        own2
            ∙ ap (λ (l : List Member). l ++ concat parts) own
            ∙ append_assoc (d.members kind) part (concat parts),
        others2 ∙ others,
      )

keep-all :
    (test : Member → Bool) (ms : List Member) → ((m : Member) → test m ≡ true) → keep test ms ≡ ms
keep-all test [] all = refl
keep-all test (m ∷ ms) all = ground (arith, all m, keep-all test ms all)

pub import_members-Joins :
    (kind : Kind) (ms : List Member) (d : Identity)
    → d.members kind ≡ []
    → Fitting (member_fits d.users (d.entities kind)) [] ms
    → Joins kind ms d (import_members kind ms d)
unfolding import_members contains
import_members-Joins kind ms d empty h =
    let existing = map member_key (d.members kind) in
    let new = keep (λ m. not (contains (member_key m) existing)) ms in
    let all_new : new ≡ ms =
      ap (λ (l : List Member). keep (λ m. not (contains (member_key m) (map member_key l))) ms)
        empty
      ∙ keep-all (λ m. true) ms (λ m. refl) in
    let parts = chunk new 500 in
    let whole : concat parts ≡ ms = concat-chunks (length new) 499 new (omega arith) ∙ all_new in
    subst (λ (l : List Member). Joins kind l d (import_members kind ms d)) whole
      (import_parts-Joins kind parts d (
        subst
          (λ (l : List Member). Fitting (member_fits d.users (d.entities kind)) (d.members kind) l)
          (sym whole) (Fitting-tables ms refl refl (sym empty) h)))
