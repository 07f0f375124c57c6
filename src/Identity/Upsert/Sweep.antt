-- ===== src/Identity/Upsert/Sweep.antt =====
-- The deactivation of the users that a source no longer lists.
use nest_id_p.Base.{◌≡◌, refl, String, false, List, [], ◌∷◌, arith, Bool, if◌then◌else◌, ◌&&◌}
use nest_id_p.Base.Eq.{nat_eq, string_eq, contains, ◌==◌}
use nest_id_p.Base.Lists.{update_where}
use nest_id_p.Base.Rows.{count}
use nest_id_p.Sync.Errors.{Kind}
use nest_id_p.Identity.Data.{Identity, User, is_synced}
use nest_id_p.Identity.Upsert.{deactivate_users_not_in_external_ids, delete_orphans, to_deactivate}

-- An active user of the source, not made by hand, whose external id is not in the list.
abbrev pub is_stale : String → List String → User → Bool
is_stale c seen u =
    if contains u.external_id seen
    then false
    else u.active && (is_synced u.origin && u.api_connection_id == c)

-- No user is stale.
abbrev pub IsSwept : String → List String → Identity → Type 0
IsSwept c seen d = count (is_stale c seen) d.users ≡ 0

count-deactivated :
    (c : String) (seen : List String) (users : List User)
    → count
        (is_stale c seen)
        (update_where (to_deactivate c seen) (λ u. record u { active = false }) users)
      ≡ 0
unfolding count update_where
count-deactivated c seen [] = refl
count-deactivated c seen (u ∷ us) = ground (arith, count-deactivated c seen us)

pub deactivate-IsSwept :
    (d : Identity) (c : String) (seen : List String)
    → IsSwept c seen (deactivate_users_not_in_external_ids d c seen).0
unfolding deactivate_users_not_in_external_ids
deactivate-IsSwept d c seen = count-deactivated c seen d.users

pub delete_orphans-IsSwept :
    (d : Identity) (kind : Kind) (c : String) (seen orphans : List String)
    → IsSwept c seen d
    → IsSwept c seen (delete_orphans d kind c orphans).0
unfolding delete_orphans
delete_orphans-IsSwept d kind c seen orphans swept = swept
