-- ===== src/SamlSessions.antt =====
-- apps/api/src/saml-sessions/services/saml-sso-session.service.ts: the registry of single sign-on
-- sessions, with its tables of apps/api/prisma/schema.prisma. A logout that is propagated to other
-- service providers is a request in a list: the propagation never fails the call.
pub mod Revoked
use nest_id_p.Base.Lists.{find, any, update_where, sort_by}
use nest_id_p.Base.Rows.{update_first}
use nest_id_p.Base.Text.{is_empty}
use nest_id_p.Base.{
  ℕ, zero, suc, ◌+◌, ◌-◌, ◌*◌, ◌^◌, ◌≤◌, ◌<◌, ◌≡◌, ◌≢◌, ◌↔◌, ◌⊎◌, inl, inr, refl, sym, ap, ◌∙◌, min,
  max, String, Bool, true, false, not, ◌&&◌, ◌||◌, Option, none, some, List, [], ◌∷◌, ◌++◌, map,
  arith, leb, ltb, nat_beq, if◌then◌else◌, length, take, keep, All, Bool-cases, Option-cases,
}
use nest_id_p.Base.Eq.{Eq, ◌==◌, nat_eq, string_eq, contains, beq_refl, beq-false}
use nest_id_p.Base.Maps.{Map, get, set, delete, retain}
use nest_id_p.Base.Text.{Text, codes}

pub data SsoStatus : Type 0 where
  active terminated : SsoStatus

pub data TerminationReason : Type 0 where
  admin_action sp_logout user_logout user_deactivated user_deleted : TerminationReason

pub record SsoSession : Type 0 where
  pub id : String
  pub user_id : Option String
  pub username : String
  pub created_at : ℕ
  pub last_seen_at : ℕ
  pub expires_at : ℕ
  pub login_ip : Option String
  pub user_agent : Option Text
  pub last_seen_ip : Option String
  pub status : SsoStatus
  pub terminated_at : Option ℕ
  pub terminated_reason : Option TerminationReason
  pub terminated_by_admin_id : Option String

pub record SpParticipation : Type 0 where
  pub sso_session_id : String
  pub sp_connection_id : String
  pub session_index : String
  pub name_id : String
  pub name_id_format : String
  pub created_at : ℕ

pub data SessionEvent : Type 0 where
  session_started : String → Option String → Option String → String → SessionEvent
  session_terminated : String → TerminationReason → Bool → Option String → SessionEvent

pub record Propagation : Type 0 where
  pub sso_session_id : String
  pub reason : TerminationReason
  pub exclude_sp_connection_id : Option String

pub record Registry : Type 0 where
  pub sessions : List SsoSession
  pub participations : List SpParticipation
  pub logout_request_ids : List String
  pub audit : List SessionEvent
  pub propagations : List Propagation
  pub next_id : ℕ

pub record CreateSsoSessionInput : Type 0 where
  pub user_id : Option String
  pub username : String
  pub expires_at : ℕ
  pub login_ip : Option String
  pub user_agent : Option Text

abbrev pub session_has_id : String → SsoSession → Bool
session_has_id id x = x.id == id

abbrev pub is_status_active : SsoStatus → Bool
is_status_active active = true
is_status_active terminated = false

-- A user agent, unless it is empty, cut to its maximal length.
abbrev pub kept_user_agent : Option Text → Option Text
kept_user_agent none = none
kept_user_agent (some []) = none
kept_user_agent (some (c ∷ text)) = some (take 512 (c ∷ text))

unfoldable pub create : (ℕ → String) → CreateSsoSessionInput → ℕ → Registry → Registry × String
create id_of input now r =
    let id = id_of r.next_id in
    let session : SsoSession = record {
      id = id;
      user_id = input.user_id;
      username = input.username;
      created_at = now;
      last_seen_at = now;
      expires_at = input.expires_at;
      login_ip = input.login_ip;
      user_agent = kept_user_agent input.user_agent;
      last_seen_ip = input.login_ip;
      status = active;
      terminated_at = none;
      terminated_reason = none;
      terminated_by_admin_id = none;
    } in
    (
      record r {
        sessions = r.sessions ++ session ∷ [];
        audit = r.audit ++ session_started id input.user_id input.login_ip input.username ∷ [];
        next_id = r.next_id + 1;
      },
      id,
    )

unfoldable pub create_participation : SpParticipation → Registry → Registry
create_participation p r = record r { participations = r.participations ++ p ∷ [] }

-- The session is active, and its end is not reached.
unfoldable pub is_active : Registry → Option String → ℕ → Bool
is_active r none now = false
is_active r (some sid) now = elim (find (session_has_id sid) r.sessions) [
  | none ↦ false
  | some x ↦ not (is_empty sid) && (is_status_active x.status && ltb now x.expires_at)
]

abbrev pub or_old : Option String → Option String → Option String
or_old none old = old
or_old (some new) old = some new

-- `touch`; a failure of the database is only logged.
unfoldable pub touch : Option String → Option String → ℕ → Registry → Registry
touch none ip now r = r
touch (some sid) ip now r = if is_empty sid then r else record r {
  sessions =
      update_where (λ x. session_has_id sid x && is_status_active x.status)
        (λ x. record x { last_seen_at = now; last_seen_ip = or_old ip x.last_seen_ip }) r.sessions;
}

pub record Termination : Type 0 where
  pub already_terminated : Bool
  pub found : Bool

abbrev pub by_admin : TerminationReason → Bool
by_admin admin_action = true
by_admin user_deactivated = true
by_admin user_deleted = true
by_admin sp_logout = false
by_admin user_logout = false

abbrev pub ended : TerminationReason → Option String → ℕ → SsoSession → SsoSession
ended reason admin_id now x = record x {
  status = terminated;
  terminated_at = some now;
  terminated_reason = some reason;
  terminated_by_admin_id = admin_id;
}

unfoldable pub terminate :
    String
    → TerminationReason
    → Option String
    → Option String
    → ℕ
    → Registry
    → Registry × Termination
terminate id reason admin_id exclude now r = elim (find (session_has_id id) r.sessions) [
  | none ↦ (r, record { already_terminated = false; found = false })
  | some x ↦
      if not (is_status_active x.status)
      then (r, record { already_terminated = true; found = true })
      else (
        record r {
          sessions = update_first (session_has_id id) (ended reason admin_id now) r.sessions;
          audit = r.audit ++ session_terminated id reason (by_admin reason) admin_id ∷ [];
          propagations =
              r.propagations
              ++ record { sso_session_id = id; reason = reason; exclude_sp_connection_id = exclude }
                ∷ [];
        },
        record { already_terminated = false; found = true },
      )
]

abbrev pub one_more_if : Termination → ℕ → ℕ
one_more_if t n = if t.found && not t.already_terminated then n + 1 else n

-- The loop of the terminations, with the number of sessions that it ended.
unfoldable pub terminate_each :
    TerminationReason → Option String → ℕ → List String → Registry → Registry × ℕ
terminate_each reason admin_id now [] r = (r, 0)
terminate_each reason admin_id now (id ∷ ids) r =
    let (next, t) = terminate id reason admin_id none now r in
    let (after, n) = terminate_each reason admin_id now ids next in (after, one_more_if t n)

abbrev pub same_user : String → Option String → Bool
same_user id none = false
same_user id (some user_id) = user_id == id

unfoldable pub terminate_all_for_user :
    String → TerminationReason → Option String → ℕ → Registry → Registry × ℕ
terminate_all_for_user user_id reason admin_id now r =
    terminate_each reason admin_id now
      (map (λ x. x.id)
        (keep (λ x. same_user user_id x.user_id && is_status_active x.status) r.sessions))
      r

unfoldable pub terminate_all_active : Option String → ℕ → Registry → Registry × ℕ
terminate_all_active admin_id now r =
    terminate_each admin_action admin_id now
      (map (λ x. x.id) (keep (λ x. is_status_active x.status) r.sessions)) r

pub data BulkOutcome : Type 0 where
  was_terminated already_terminated not_found : BulkOutcome

abbrev pub outcome_of : Termination → BulkOutcome
outcome_of t =
    if not t.found
    then not_found
    else if t.already_terminated
    then already_terminated
    else was_terminated

-- The results are in the order of the ids.
unfoldable pub terminate_bulk :
    List String → Option String → ℕ → Registry → Registry × (List (String × BulkOutcome) × ℕ)
terminate_bulk [] admin_id now r = (r, ([], 0))
terminate_bulk (id ∷ ids) admin_id now r =
    let (next, t) = terminate id admin_action admin_id none now r in
    let (after, (results, n)) = terminate_bulk ids admin_id now next in
    (after, ((id, outcome_of t) ∷ results, one_more_if t n))

pub record LogoutMatchInput : Type 0 where
  pub sp_connection_id : String
  pub name_id : String
  pub session_indexes : List String

abbrev pub is_indexed : List String → String → Bool
is_indexed [] index = true
is_indexed (i ∷ is) index = contains index (i ∷ is)

abbrev pub session_is_active : Registry → String → Bool
session_is_active r id = any (λ x. session_has_id id x && is_status_active x.status) r.sessions

-- The newest participation that matches.
unfoldable pub find_matching_for_logout : LogoutMatchInput → Registry → Option String
find_matching_for_logout input r =
    elim (sort_by (λ (p q : SpParticipation). leb q.created_at p.created_at)
      (keep
        (λ (p : SpParticipation).
          p.sp_connection_id == input.sp_connection_id
          && (p.name_id == input.name_id
              && (session_is_active r p.sso_session_id
                  && is_indexed input.session_indexes p.session_index)))
        r.participations)) [ [] ↦ none | p ∷ ps ↦ some p.sso_session_id ]

-- Protection against replay: the unique index on request ids.
unfoldable pub record_logout_request_id : String → Registry → Registry × Bool
record_logout_request_id request_id r =
    if contains request_id r.logout_request_ids
    then (r, false)
    else (record r { logout_request_ids = request_id ∷ r.logout_request_ids }, true)
