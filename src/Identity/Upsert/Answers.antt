-- ===== src/Identity/Upsert/Answers.antt =====
-- What an upsert of a user answers and what stands in the table then.
use nest_id_p.Base.{◌≡◌, String, true, some}
use nest_id_p.Base.Eq.{nat_eq, string_eq}
use nest_id_p.Base.{find}
use nest_id_p.Sync.Errors.{Outcome, done}
use nest_id_p.Sync.Directory.{ExternalUser}
use nest_id_p.Identity.Data.{Identity, User, Fresh, is_synced, has_external}
use nest_id_p.Identity.Upsert.{normalize_synced_email}

module _ (to_lower : String → String) (fresh : Fresh) where
  -- The row of a user that was written: what the upsert answers is its id, and the columns are the
  -- source's.
  abbrev pub HoldsUser : Identity × Outcome String → String → ExternalUser → Type 0
  HoldsUser r c u =
      (x : User) × (find (has_external c u.id) r.0.users ≡ some x)
      × (r.1 ≡ done x.id)
      × (x.username ≡ u.username)
      × (x.email ≡ normalize_synced_email to_lower u.email)
      × (x.display_name ≡ u.display_name)
      × (x.password_hash ≡ u.password_hash)
      × (x.password_hash_algorithm ≡ u.password_hash_algorithm)
      × (x.active ≡ u.active)
      × (is_synced x.origin ≡ true)
