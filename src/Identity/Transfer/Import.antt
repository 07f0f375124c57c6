-- ===== src/Identity/Transfer/Import.antt =====
-- The whole import into an empty store.
use nest_id_p.Base.{ℕ, ◌≡◌, refl, sym, ap, ◌∙◌, String, Bool, List, [], ◌++◌, map, arith, length}
use nest_id_p.Base.Eq.{nat_eq, string_eq}
use mathlib.Core.Path.{subst}
use nest_id_p.Sync.Errors.{Kind, group, role, Outcome, done, threw}
use nest_id_p.Sync.Counters.{put}
use nest_id_p.Identity.Data.{Identity, User, Entity, Member}
use nest_id_p.Identity.Manual.{user_fits, entity_fits, member_fits, then_write}
use nest_id_p.Identity.Transfer.{
  ImportMode, Snapshot, Counts, ImportCounts, Progress, Loop, import_rows, import_members,
  import_entities, import_users, import_snapshot, export_all, wipe_all, no_counts, overwrite_entity,
  overwrite_user, total_rows,
}
use nest_id_p.Identity.Transfer.RoundTrip.{
  Fitting, Inserts, import_rows-Fitting, other, import_members-Joins, put-kind, Fitting-tables,
}

-- What the constraints of the database promise of its tables: keys, unique indexes and references.
pub record Stored (known : String → Bool) (d : Identity) : Type 0 where
  pub users_fit : Fitting (user_fits known) [] d.users
  pub entities_fit : (kind : Kind) → Fitting (entity_fits known) [] (d.entities kind)
  pub members_fit :
      (kind : Kind) → Fitting (member_fits d.users (d.entities kind)) [] (d.members kind)

abbrev pub all_inserted : ℕ → Counts
all_inserted n = record { inserted = n; updated = 0 }

module _ (known : String → Bool) (mode : ImportMode) (snapshot : Snapshot) where
  abbrev FillsEntities : Kind → Identity → (Identity × Progress) × Outcome Counts → Type 0
  FillsEntities kind d v =
      (v.1 ≡ done (all_inserted (length (snapshot.entities kind))))
      × (v.0.0.users ≡ d.users)
      × (v.0.0.members ≡ d.members)
      × (v.0.0.entities kind ≡ snapshot.entities kind)
      × (v.0.0.entities (other kind) ≡ d.entities (other kind))

  import_entities-Fitting :
      (kind : Kind) (p : Progress) (d : Identity)
      → d.entities kind ≡ []
      → Fitting (entity_fits known) [] (snapshot.entities kind)
      → FillsEntities kind d (import_entities known mode snapshot kind p d)
  unfolding import_entities
  import_entities-Fitting kind p d empty h =
      let total = total_rows known mode snapshot in
      let rows = snapshot.entities kind in
      let start : List Entity → Loop Entity =
        λ t. record { table = t; counts = no_counts; progress = p } in
      let (table, counts, ok) =
        subst
          (λ (t : List Entity).
            Inserts (entity_fits known) (λ e. e.id) overwrite_entity mode total rows (start [])
              (import_rows (λ e. e.id) (entity_fits known) overwrite_entity mode total
                (map (λ e. e.id) t) rows (start t)))
          (sym empty)
          (import_rows-Fitting (entity_fits known) (λ e. e.id) overwrite_entity mode total rows
            (start []) h) in
      let loop =
        import_rows (λ e. e.id) (entity_fits known) overwrite_entity mode total
          (map (λ e. e.id) (d.entities kind)) rows (start (d.entities kind)) in
      let (own, others) = put-kind kind loop.0.table d.entities in
      rw (ok, import_entities)
        (ap done (counts ∙ ap all_inserted (omega arith)), refl, refl, own ∙ table, others)

  abbrev FillsUsers : Identity → (Identity × Progress) × Outcome Counts → Type 0
  FillsUsers d v =
      (v.1 ≡ done (all_inserted (length snapshot.users)))
      × (v.0.0.users ≡ snapshot.users)
      × (v.0.0.members ≡ d.members)
      × (v.0.0.entities ≡ d.entities)

  import_users-Fitting :
      (p : Progress) (d : Identity)
      → d.users ≡ []
      → Fitting (user_fits known) [] snapshot.users
      → FillsUsers d (import_users known mode snapshot p d)
  unfolding import_users
  import_users-Fitting p d empty h =
      let total = total_rows known mode snapshot in
      let rows = snapshot.users in
      let start : List User → Loop User =
        λ t. record { table = t; counts = no_counts; progress = p } in
      let (table, counts, ok) =
        subst
          (λ (t : List User).
            Inserts (user_fits known) (λ u. u.id) overwrite_user mode total rows (start [])
              (import_rows (λ u. u.id) (user_fits known) overwrite_user mode total
                (map (λ u. u.id) t) rows (start t)))
          (sym empty)
          (import_rows-Fitting (user_fits known) (λ u. u.id) overwrite_user mode total rows
            (start []) h) in
      rw (ok, import_users) (ap done (counts ∙ ap all_inserted (omega arith)), table, refl, refl)

then_write-done :
    {A B : Type 0} (v : Identity × Outcome A) (next : Identity → Identity × Outcome B) (a : A)
    → v.1 ≡ done a
    → then_write v next ≡ next v.0
then_write-done (d, done b) next a ok = refl
then_write-done (d, threw x) next a ok = ground (arith, ok)

of_both : (P : Kind → Type 0) → P group → P role → (kind : Kind) → P kind
of_both P g r group = g
of_both P g r role = r

-- The tables of a store are those of another, and every row was counted as inserted.
abbrev pub Restores : Identity → (Identity × Progress) × Outcome ImportCounts → Type 0
Restores d v =
    (c : ImportCounts) × (v.1 ≡ done c)
    × (c.users ≡ all_inserted (length d.users))
    × ((kind : Kind) → c.entities kind ≡ all_inserted (length (d.entities kind)))
    × (v.0.0.users ≡ d.users)
    × ((kind : Kind) → v.0.0.entities kind ≡ d.entities kind)
    × ((kind : Kind) → v.0.0.members kind ≡ d.members kind)

-- An export that is imported into a wiped store, in either mode, succeeds and restores every table,
-- where the tables satisfied the constraints of the database; each row is counted as inserted.
pub import_snapshot-export_all :
    (known : String → Bool) (mode : ImportMode) (d e : Identity)
    → Stored known d
    → Restores d (import_snapshot known mode (export_all d) (wipe_all e))
unfolding import_snapshot
import_snapshot-export_all known mode d e stored =
    let snapshot = export_all d in
    let start : Progress = record { through = 0; reports = [] } in
    let first = import_entities known mode snapshot group start (wipe_all e) in
    let (ok1, users1, members1, groups1, roles1) =
      import_entities-Fitting known mode snapshot group start (wipe_all e) refl
        (stored.entities_fit group) in
    let second = import_entities known mode snapshot role first.0.1 first.0.0 in
    let (ok2, users2, members2, roles2, groups2) =
      import_entities-Fitting known mode snapshot role first.0.1 first.0.0 roles1
        (stored.entities_fit role) in
    let third = import_users known mode snapshot second.0.1 second.0.0 in
    let (ok3, users3, members3, entities3) =
      import_users-Fitting known mode snapshot second.0.1 second.0.0 (users2 ∙ users1)
        stored.users_fit in
    let no_members = members3 ∙ members2 ∙ members1 in
    let groups3 = ap (λ (f : Kind → List Entity). f group) entities3 ∙ groups2 ∙ groups1 in
    let roles3 = ap (λ (f : Kind → List Entity). f role) entities3 ∙ roles2 in
    let fourth = import_members group (d.members group) third.0.0 in
    let (ok4, users4, entities4, own4, others4) =
      import_members-Joins group (d.members group) third.0.0
        (ap (λ (f : Kind → List Member). f group) no_members)
        (Fitting-tables (d.members group) (sym users3) (sym groups3) refl
          (stored.members_fit group)) in
    let roles4 = ap (λ (f : Kind → List Entity). f role) entities4 ∙ roles3 in
    let (ok5, users5, entities5, own5, others5) =
      import_members-Joins role (d.members role) fourth.0
        (others4 ∙ ap (λ (f : Kind → List Member). f role) no_members)
        (Fitting-tables (d.members role) (sym (users4 ∙ users3)) (sym roles4) refl
          (stored.members_fit role)) in
    let groups5 = ap (λ (f : Kind → List Entity). f group) (entities5 ∙ entities4) ∙ groups3 in
    let roles5 = ap (λ (f : Kind → List Entity). f role) entities5 ∙ roles4 in
    let joined_groups =
      others5 ∙ own4 ∙ ap (λ (f : Kind → List Member). f group ++ d.members group) no_members in
    let joined_roles =
      own5
      ∙ ap (λ (l : List Member). l ++ d.members role)
          (others4 ∙ ap (λ (f : Kind → List Member). f role) no_members) in
    let same = then_write-done fourth (import_members role (d.members role)) tt ok4 in
    let stays = ap (λ (v : Identity × Outcome {0} Unit). v.0) same in
    rw (ok1, ok2, ok3, ap (λ (v : Identity × Outcome {0} Unit). v.1) same ∙ ok5, import_snapshot)
      (
        record {
          users = all_inserted (length d.users);
          entities =
              put group (all_inserted (length (d.entities group)))
                (put role (all_inserted (length (d.entities role))) (λ kind. no_counts));
        },
        refl,
        refl,
        of_both (λ kind. _) refl refl,
        ap (λ (i : Identity). i.users) stays ∙ users5 ∙ users4 ∙ users3,
        of_both (λ kind. _) (ap (λ (i : Identity). i.entities group) stays ∙ groups5)
            (ap (λ (i : Identity). i.entities role) stays ∙ roles5),
        of_both (λ kind. _) (ap (λ (i : Identity). i.members group) stays ∙ joined_groups)
            (ap (λ (i : Identity). i.members role) stays ∙ joined_roles),
      )
