-- ===== src/Identity/Admin.antt =====
-- apps/api/src/identity/identity.repository.ts: what the administration reads and writes. `before`
-- is the order of the database on texts, and `like` its comparison with a pattern in which a
-- backslash escapes.
use nest_id_p.Base.{
  ℕ, ◌+◌, max, String, Bool, true, false, not, ◌&&◌, ◌||◌, Option, none, some, List, [], ◌∷◌, ◌++◌,
  map, if◌then◌else◌, length, take, keep,
}
use nest_id_p.Base.Eq.{Eq, ◌==◌, nat_eq, string_eq, contains}
use nest_id_p.Base.Maps.{Map, get, set}
use nest_id_p.Base.Text.{Text, codes}
use nest_id_p.Base.Lists.{find, sort_by, drop}
use nest_id_p.Base.Rows.{count}
use nest_id_p.Base.Text.{trim_start, trim_end, is_empty}
use nest_id_p.Sync.Errors.{Kind, group, role}
use nest_id_p.Identity.Data.{
  Identity, User, Entity, Member, Origin, manual, synced, is_synced, has_id, has_username,
  entity_has_id, entity_has_name,
}

pub record ListQuery : Type 0 where
  pub limit : ℕ
  pub offset : ℕ
  pub search : Option String
  pub origin : Option Origin
  pub api_connection_id : Option String

pub record ListResult (A : Type 0) : Type 0 where
  pub items : List A
  pub total : ℕ

abbrev pub count_users : Identity → ℕ
count_users d = length d.users

abbrev pub count_groups : Identity → ℕ
count_groups d = length (d.entities group)

abbrev pub count_roles : Identity → ℕ
count_roles d = length (d.entities role)

abbrev pub or_zero : Option ℕ → ℕ
or_zero none = 0
or_zero (some n) = n

-- `groupBy` with the number of rows, of the sources of the rows.
unfoldable pub count_by : List String → Map String ℕ
count_by [] = []
count_by (c ∷ cs) = let rest = count_by cs in set c (or_zero (get c rest) + 1) rest

pub record CountsByConnection : Type 0 where
  pub users : Map String ℕ
  pub groups : Map String ℕ
  pub roles : Map String ℕ

pub counts_by_connection : Identity → CountsByConnection
counts_by_connection d = record {
  users = count_by (map (λ (u : User). u.api_connection_id) d.users);
  groups = count_by (map (λ (e : Entity). e.api_connection_id) (d.entities group));
  roles = count_by (map (λ (e : Entity). e.api_connection_id) (d.entities role));
}

abbrev pub find_user_by_username : Identity → String → Option User
find_user_by_username d name = find (has_username name) d.users

abbrev pub get_user_by_id : Identity → String → Option User
get_user_by_id d id = find (has_id id) d.users

-- The rows of a kind that a user is a member of, in the order of the memberships.
unfoldable pub entities_of : Identity → Kind → List Member → List Entity
entities_of d kind [] = []
entities_of d kind (m ∷ ms) = elim (find (entity_has_id m.entity_id) (d.entities kind)) [
  | none ↦ entities_of d kind ms
  | some e ↦ e ∷ entities_of d kind ms
]

abbrev pub entities_of_user : Identity → Kind → String → List Entity
entities_of_user d kind id = entities_of d kind (keep (λ m. m.user_id == id) (d.members kind))

pub record UserProfileForAuth : Type 0 where
  pub id : String
  pub username : String
  pub email : Option String
  pub display_name : Option String
  pub active : Bool
  pub groups : List String
  pub roles : List String

unfoldable pub find_user_profile_by_id : Identity → String → Option UserProfileForAuth
find_user_profile_by_id d id = elim (find (has_id id) d.users) [
  | none ↦ none
  | some u ↦ some (record {
    id = u.id;
    username = u.username;
    email = u.email;
    display_name = u.display_name;
    active = u.active;
    groups = map (λ (e : Entity). e.name) (entities_of_user d group u.id);
    roles = map (λ (e : Entity). e.name) (entities_of_user d role u.id);
  })
]

pub record UserWithMemberships : Type 0 where
  pub user : User
  pub groups : List Entity
  pub roles : List Entity

pub get_user_with_memberships : Identity → String → Option UserWithMemberships
get_user_with_memberships d id = elim (find (has_id id) d.users) [
  | none ↦ none
  | some u ↦ some (record {
    user = u;
    groups = entities_of_user d group u.id;
    roles = entities_of_user d role u.id;
  })
]

abbrev pub asks : {A : Type 0} ⦃e : Eq A⦄ → Option A → A → Bool
asks none a = true
asks (some b) a = a == b

abbrev pub same_origin : Option Origin → Origin → Bool
same_origin none o = true
same_origin (some manual) o = not (is_synced o)
same_origin (some synced) o = is_synced o

abbrev pub wants_user : ListQuery → User → Bool
wants_user q u = same_origin q.origin u.origin && asks q.api_connection_id u.api_connection_id

abbrev pub wants_entity : ListQuery → Entity → Bool
wants_entity q e = same_origin q.origin e.origin && asks q.api_connection_id e.api_connection_id

-- `escapeLike`: the backslash, the percent sign and the underscore.
unfoldable pub escape_like : Text → Text
escape_like [] = []
escape_like (c ∷ cs) =
    let rest = escape_like cs in if contains c (92 ∷ 37 ∷ 95 ∷ []) then 92 ∷ c ∷ rest else c ∷ rest

abbrev pub member_count : Identity → Kind → String → ℕ
member_count d kind id = length (keep (λ m. m.entity_id == id) (d.members kind))

module _ (before : String → String → Bool) (like : Text → String → Bool) where
  pub page : {A : Type 0} → (A → String) → ListQuery → List A → ListResult A
  page key q rows = record {
    items = take q.limit (drop q.offset (sort_by (λ a b. before (key a) (key b)) rows));
    total = length rows;
  }

  abbrev pub matches : Text → User → Bool
  matches pattern u =
      like pattern u.username || (elim u.email [ none ↦ false | some e ↦ like pattern e ])

  -- `listUsersWithSearch`.
  list_users_with_search : Identity → String → ListQuery → ListResult User
  list_users_with_search d term q =
      let pattern = 37 ∷ escape_like (codes term) ++ 37 ∷ [] in
      page (λ u. u.username) q (keep (λ u. matches pattern u && wants_user q u) d.users)

  pub list_users : Identity → ListQuery → ListResult User
  unfolding list_users_with_search
  list_users d q = elim q.search [
    | none ↦ page (λ u. u.username) q (keep (wants_user q) d.users)
    | some term ↦
        let trimmed = trim_end (trim_start term) in
        if is_empty trimmed
        then page (λ u. u.username) q (keep (wants_user q) d.users)
        else list_users_with_search d trimmed q
  ]

  pub list_entities : Identity → Kind → ListQuery → ListResult (Entity × ℕ)
  list_entities d kind q =
      page (λ row. row.0.name) q
        (map (λ (e : Entity). (e, member_count d kind e.id))
          (keep (wants_entity q) (d.entities kind)))

  users_of : Identity → List Member → List User
  users_of d [] = []
  users_of d (m ∷ ms) = elim (find (has_id m.user_id) d.users) [
    | none ↦ users_of d ms
    | some u ↦ u ∷ users_of d ms
  ]

  pub get_members : Identity → Kind → String → ℕ → List User
  unfolding users_of
  get_members d kind id max = take max (
      sort_by (λ a b. before a.username b.username)
        (users_of d (keep (λ m. m.entity_id == id) (d.members kind))))

pub get_entity_by_id : Identity → Kind → String → Option (Entity × ℕ)
get_entity_by_id d kind id = elim (find (entity_has_id id) (d.entities kind)) [
  | none ↦ none
  | some e ↦ some (e, member_count d kind e.id)
]

-- `existing !== null && existing.id !== excludeId`.
abbrev pub is_other : Option String → String → Bool
is_other none id = true
is_other (some excluded) id = not (id == excluded)

unfoldable pub is_username_taken : Identity → String → Option String → Bool
is_username_taken d name exclude = elim (find (has_username name) d.users) [
  | none ↦ false
  | some u ↦ is_other exclude u.id
]

unfoldable pub is_name_taken : Identity → Kind → String → String → Option String → Bool
is_name_taken d kind c name exclude = elim (find (entity_has_name c name) (d.entities kind)) [
  | none ↦ false
  | some e ↦ is_other exclude e.id
]

-- The number of rows against the length of the list, in which an id that stands twice counts twice.
unfoldable pub exist_all : Identity → Kind → List String → Bool
exist_all d kind [] = true
exist_all d kind (id ∷ ids) =
    count (λ e. contains e.id (id ∷ ids)) (d.entities kind) == length (id ∷ ids)

unfoldable pub all_in_connection : Identity → Kind → List String → String → Bool
all_in_connection d kind [] c = true
all_in_connection d kind (id ∷ ids) c =
    count (λ e. contains e.id (id ∷ ids) && e.api_connection_id == c) (d.entities kind)
    == length (id ∷ ids)
