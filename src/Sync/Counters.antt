-- ===== src/Sync/Counters.antt =====
-- apps/api/src/sync/utils/sync-counters.ts: the counters of a run. A set of strings is the list of
-- its elements.
pub mod Laws
use nest_id_p.Base.{
  ℕ, zero, suc, ◌+◌, ◌-◌, ◌*◌, ◌^◌, ◌≤◌, ◌<◌, ◌≡◌, ◌≢◌, ◌↔◌, ◌⊎◌, inl, inr, refl, sym, ap, ◌∙◌, min,
  max, String, Bool, true, false, not, ◌&&◌, ◌||◌, Option, none, some, List, [], ◌∷◌, ◌++◌, map,
  arith, leb, ltb, nat_beq, if◌then◌else◌, length, take, keep, All, Bool-cases, Option-cases,
}
use nest_id_p.Base.Eq.{Eq, ◌==◌, nat_eq, string_eq, contains, beq_refl, beq-false}
use nest_id_p.Base.Maps.{Map, get, set, delete, retain}
use nest_id_p.Base.Text.{Text, codes}
use nest_id_p.Base.Eq.{contains}
use Prim.Native.String.{String, []}
use Prim.Native.Nat.{ℕ}
use nest_id_p.Base.{Bool, List, String, [], true, ℕ, ◌+◌, ◌-◌, false, if◌then◌else◌, ◌∷◌}
use nest_id_p.Sync.Errors.{Kind, group, role}

pub record SyncCounterSnapshot : Type 0 where
  pub users_synced : ℕ
  pub groups_synced : ℕ
  pub roles_synced : ℕ
  pub users_skipped_collision : ℕ
  pub groups_deactivated : ℕ
  pub roles_deactivated : ℕ

pub record SyncCounters : Type 0 where
  pub counts : SyncCounterSnapshot
  pub seen_users : List String
  pub seen : Kind → List String
  pub upserted : Kind → List String
  pub membership_fetch_failed : Kind → Bool

abbrev pub no_counts : SyncCounterSnapshot
no_counts = record {
  users_synced = 0;
  groups_synced = 0;
  roles_synced = 0;
  users_skipped_collision = 0;
  groups_deactivated = 0;
  roles_deactivated = 0;
}

abbrev pub new_counters : SyncCounters
new_counters = record {
  counts = no_counts;
  seen_users = [];
  seen = λ k. [];
  upserted = λ k. [];
  membership_fetch_failed = λ k. false;
}

-- `Set.add`.
abbrev pub insert : String → List String → List String
insert x xs = if contains x xs then xs else x ∷ xs

-- A field of each kind, with the one of a kind replaced.
abbrev pub put {ℓ} : {A : Type ℓ} → Kind → A → (Kind → A) → Kind → A
put group a f group = a
put group a f role = f role
put role a f group = f group
put role a f role = a

unfoldable pub add_user : SyncCounters → SyncCounters
add_user c = record c { counts = record c.counts { users_synced = c.counts.users_synced + 1 } }

unfoldable pub add_collision : SyncCounters → SyncCounters
add_collision c = record c {
  counts = record c.counts { users_skipped_collision = c.counts.users_skipped_collision + 1 };
}

unfoldable pub see_user : String → SyncCounters → SyncCounters
see_user external_id c = record c { seen_users = insert external_id c.seen_users }

unfoldable pub mark_seen : Kind → String → SyncCounters → SyncCounters
mark_seen kind external_id c = record c {
  seen = put kind (insert external_id (c.seen kind)) c.seen;
}

abbrev pub synced : Kind → SyncCounterSnapshot → ℕ
synced group s = s.groups_synced
synced role s = s.roles_synced

abbrev pub one_more : Kind → SyncCounterSnapshot → SyncCounterSnapshot
one_more group s = record s { groups_synced = s.groups_synced + 1 }
one_more role s = record s { roles_synced = s.roles_synced + 1 }

-- `addGroupOnce` and `addRoleOnce`; whether the call counted stands beside the counters.
unfoldable pub add_once : Kind → String → SyncCounters → SyncCounters × Bool
add_once kind external_id c = if contains external_id (c.upserted kind) then (c, false) else (
  record c {
    upserted = put kind (external_id ∷ c.upserted kind) c.upserted;
    counts = one_more kind c.counts;
  },
  true,
)

unfoldable pub mark_membership_fetch_failed : Kind → SyncCounters → SyncCounters
mark_membership_fetch_failed kind c = record c {
  membership_fetch_failed = put kind true c.membership_fetch_failed;
}

unfoldable pub should_skip_orphan_deletion : Kind → SyncCounters → Bool
should_skip_orphan_deletion kind c = c.membership_fetch_failed kind

unfoldable pub set_deactivated : Kind → ℕ → SyncCounters → SyncCounters
set_deactivated group n c = record c { counts = record c.counts { groups_deactivated = n } }
set_deactivated role n c = record c { counts = record c.counts { roles_deactivated = n } }

abbrev pub to_counter_snapshot : SyncCounters → SyncCounterSnapshot
to_counter_snapshot c = c.counts
