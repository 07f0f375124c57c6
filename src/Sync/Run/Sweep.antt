-- ===== src/Sync/Run/Sweep.antt =====
-- What the deactivation of phase C brings about, and the deletions after it keep, stands at the end
-- of a run that succeeded.
use nest_id_p.Base.{
  ℕ, ◌≡◌, inl, inr, refl, String, true, false, none, some, List, arith, Bool-cases,
}
use nest_id_p.Base.Eq.{nat_eq, string_eq}
use nest_id_p.Sync.Errors.{Kind, group, role, done, Outcome-cases}
use nest_id_p.Sync.Counters.{set_deactivated, should_skip_orphan_deletion, SyncCounters}
use nest_id_p.Sync.Directory.{Connection, Contract, Source, Directory, CollisionPolicy}
use nest_id_p.Sync.Users.{RunState, ProcessedUser, fetch_and_map_users}
use nest_id_p.Sync.Memberships.{apply_user_memberships}
use nest_id_p.Sync.Run.{delete_kind, deactivate_orphans, after_users, phases}

set_deactivated-seen :
    (kind : Kind) (n : ℕ) (c : SyncCounters) → (set_deactivated kind n c).seen_users ≡ c.seen_users
unfolding set_deactivated
set_deactivated-seen group n c = refl
set_deactivated-seen role n c = refl

module _ {Json D : Type 0} (contract : Contract Json) (source : Source Json) (store : Directory D)
    (connection : Connection) (Swept : List String → D → Type 0)
    (by_deactivate : (d : D) (seen : List String)
      → Swept seen (store.deactivate_users_not_in d connection.id seen).0)
    (by_orphans : (d : D) (seen : List String) (kind : Kind) (orphans : List String)
      → Swept seen d
      → Swept seen (store.delete_orphans d kind connection.id orphans).0) where
  delete_kind-Swept :
      (kind : Kind) (s : RunState D)
      → Swept s.counters.seen_users s.directory
      → Swept
          (delete_kind contract source store connection.id kind s).0.counters.seen_users
          (delete_kind contract source store connection.id kind s).0.directory
  unfolding delete_kind
  delete_kind-Swept kind s p = elim (Bool-cases (should_skip_orphan_deletion kind s.counters)) [
    | inl b ↦ rw (b, delete_kind) p
    | inr b ↦
        let kept = by_orphans s.directory s.counters.seen_users kind (s.counters.seen kind) p in
        elim (Outcome-cases
          (store.delete_orphans s.directory kind connection.id (s.counters.seen kind)).1) [
            | inl (n, e) ↦ rw (b, delete_kind, e, set_deactivated-seen kind n s.counters) kept
            | inr (x, e) ↦ rw (b, delete_kind, e) kept
          ]
  ]

  deactivate_orphans-Swept :
      (s : RunState D)
      → Swept
          (deactivate_orphans contract source store connection.id false s).0.counters.seen_users
          (deactivate_orphans contract source store connection.id false s).0.directory
  unfolding deactivate_orphans
  deactivate_orphans-Swept s =
      let seen = s.counters.seen_users in
      let result = store.deactivate_users_not_in s.directory connection.id seen in
      let written : RunState D = record s { directory = result.0 } in
      let swept = by_deactivate s.directory seen in
      let grouped = delete_kind contract source store connection.id group written in
      let kept = delete_kind-Swept group written swept in
      elim (Outcome-cases result.1) [
        | inr (x, e) ↦ rw (e, deactivate_orphans) swept
        | inl (n, e) ↦ elim (Outcome-cases grouped.1) [
          | inl (u, f) ↦ rw (e, deactivate_orphans, f) (delete_kind-Swept role grouped.0 kept)
          | inr (x, f) ↦ rw (e, deactivate_orphans, f) kept
        ]
      ]

  after_users-Swept :
      (us : List (ProcessedUser Json)) (token : String) (s : RunState D)
      → (after_users contract source store connection false us token s).1 ≡ done true
      → Swept
          (after_users contract source store connection false us token s).0.counters.seen_users
          (after_users contract source store connection false us token s).0.directory
  unfolding after_users
  after_users-Swept us token s ok =
      let first = apply_user_memberships contract source store connection false us token s in
      let last = deactivate_orphans contract source store connection.id false first.0 in
      elim (Outcome-cases first.1) [
        | inr (x, e) ↦ let z = rw (e, after_users) at ok in ground (arith, z)
        | inl (u, e) ↦ elim (Outcome-cases last.1) [
          | inr (x, f) ↦ let z = rw (e, after_users, f) at ok in ground (arith, z)
          | inl (v, f) ↦ rw (e, after_users, f) (deactivate_orphans-Swept first.0)
        ]
      ]

  pub phases-Swept :
      (global : CollisionPolicy) (s : RunState D)
      → (phases contract source store connection global false s).1 ≡ done true
      → Swept
          (phases contract source store connection global false s).0.counters.seen_users
          (phases contract source store connection global false s).0.directory
  unfolding phases
  phases-Swept global s ok =
      let first = fetch_and_map_users contract source store connection global false s in
      elim (Outcome-cases first.1) [
        | inr (x, e) ↦ let z = rw (e, phases) at ok in ground (arith, z)
        | inl (none, e) ↦ let z = rw (e, phases) at ok in ground (arith, z)
        | inl (some (us, token), e) ↦
            let z = rw (e, phases) at ok in rw (e, phases) (after_users-Swept us token first.0 z)
      ]
