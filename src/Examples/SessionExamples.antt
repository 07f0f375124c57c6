-- ===== src/Examples/SessionExamples.antt =====
-- The registry of single sign-on sessions on concrete rows.
use nest_id_p.Base.{◌≡◌, refl, true, false, none, some, [], ◌∷◌}
use nest_id_p.Base.Eq.{nat_eq, string_eq}
use nest_id_p.Base.Lists.{find}
use nest_id_p.Base.Rows.{update_first}
use nest_id_p.SamlSessions.{
  SsoSession, Registry, active, terminate_each, terminate_all_for_user, terminate, user_deactivated,
  is_active, ended,
}
use nest_id_p.SamlSessions.Revoked.{terminate_all_for_user-revokes}

abbrev session : SsoSession
session = record {
  id = "s";
  user_id = some "u";
  username = "alice";
  created_at = 0;
  last_seen_at = 0;
  expires_at = 100;
  login_ip = none;
  user_agent = none;
  last_seen_ip = none;
  status = active;
  terminated_at = none;
  terminated_reason = none;
  terminated_by_admin_id = none;
}

abbrev registry : Registry
registry = record {
  sessions = session ∷ [];
  participations = [];
  logout_request_ids = [];
  audit = [];
  propagations = [];
  next_id = 1;
}

was_active : is_active registry (some "s") 50 ≡ true
unfolding is_active find
was_active = refl

terminate_all_for_user-revokes_example :
    is_active
      (terminate_all_for_user "u" user_deactivated (some "admin") 10 registry).0
      (some "s")
      50
    ≡ false
unfolding terminate_all_for_user terminate_each terminate find update_first
terminate_all_for_user-revokes_example =
    terminate_all_for_user-revokes "u" user_deactivated (some "admin") 10 registry "s"
      (ended user_deactivated (some "admin") 10 session) 50 refl refl
