-- ===== src/Sync/Counters/Laws.antt =====
-- The counters of a run count each group and each role once.
use nest_id_p.Base.{◌≡◌, String, false, List, [], ◌∷◌, arith, length}
use nest_id_p.Base.Eq.{nat_eq, string_eq, contains}
use nest_id_p.Base.Eq.{contains}
use nest_id_p.Sync.Errors.{Kind}
use nest_id_p.Base.{List, String, ◌≡◌, length, ◌∷◌, false}
use nest_id_p.Sync.Errors.{Kind, group, role}
use nest_id_p.Sync.Counters.{SyncCounters, add_once, synced, Kind, List, contains}

abbrev pub AreDistinct : List String → Type 0
AreDistinct [] = Unit
AreDistinct (x ∷ xs) = (contains x xs ≡ false) × AreDistinct xs

-- The count of a kind is the number of the distinct ids that were upserted.
abbrev pub CountsOnce : Kind → SyncCounters → Type 0
CountsOnce kind c =
    AreDistinct (c.upserted kind) × (synced kind c.counts ≡ length (c.upserted kind))

-- Counting an entity of any kind keeps, for every kind, the count equal to the number of distinct
-- external ids counted so far.
pub add_once-CountsOnce :
    (kind counted : Kind) (external_id : String) (c : SyncCounters)
    → CountsOnce kind c
    → CountsOnce kind (add_once counted external_id c).0
unfolding add_once
add_once-CountsOnce group group external_id c v = ground arith
add_once-CountsOnce group role external_id c v = ground arith
add_once-CountsOnce role group external_id c v = ground arith
add_once-CountsOnce role role external_id c v = ground arith
