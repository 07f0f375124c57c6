-- ===== src/CertRotation/Commands.antt =====
-- What reaches the service of apps/api/src/idp-settings/services/idp-settings.service.ts: the
-- requests of its controller and the ticks of its scheduler, in any order. A call runs whole.
pub mod Keeps
pub mod Never
use nest_id_p.CertRotation.Config.{CertRotationConfig}
use nest_id_p.CertRotation.Auto.{
  Reader, Trigger, run_auto_rotation_check, run_auto_rotation_check_on_demand, run_tick,
}
use nest_id_p.CertRotation.{CertKind, State}
use nest_id_p.CertRotation.Service.{
  Crypto, UpdateIdpSettings, RotationSource, update_settings, generate_primary_cert,
  upload_primary_cert, start_rotation, complete_rotation, cancel_rotation,
}
use nest_id_p.Base.{
  ℕ, zero, suc, ◌+◌, ◌-◌, ◌*◌, ◌^◌, ◌≤◌, ◌<◌, ◌≡◌, ◌≢◌, ◌↔◌, ◌⊎◌, inl, inr, refl, sym, ap, ◌∙◌, min,
  max, String, Bool, true, false, not, ◌&&◌, ◌||◌, Option, none, some, List, [], ◌∷◌, ◌++◌, map,
  arith, leb, ltb, nat_beq, if◌then◌else◌, length, take, keep, All, Bool-cases, Option-cases,
}
use nest_id_p.Base.Eq.{Eq, ◌==◌, nat_eq, string_eq, contains, beq_refl, beq-false}
use nest_id_p.Base.Maps.{Map, get, set, delete, retain}
use nest_id_p.Base.Text.{Text, codes}

pub data Command (Options : Type 0) : Type 0 where
  update : UpdateIdpSettings → Command Options
  generate_primary : CertKind → Options → Command Options
  upload_primary : CertKind → String → String → Command Options
  start : CertKind → RotationSource Options → ℕ → Command Options
  complete cancel : CertKind → Command Options
  check : Trigger → Option Bool → ℕ → Command Options
  check_on_demand : ℕ → Command Options
  tick : Bool → ℕ → Command Options

module _ {Options : Type 0} (crypto : Crypto Options) (reader : Reader Options)
    (config : CertRotationConfig) where
  abbrev pub perform : Command Options → State → State
  perform (update body) s = (update_settings crypto body s).0
  perform (generate_primary kind options) s = (generate_primary_cert crypto kind options s).0
  perform (upload_primary kind cert key) s = (upload_primary_cert crypto kind cert key s).0
  perform (start kind from now) s = (start_rotation crypto kind from now s).0
  perform (complete kind) s = (complete_rotation kind s).0
  perform (cancel kind) s = (cancel_rotation kind s).0
  perform (check trigger dry now) s =
      (run_auto_rotation_check crypto reader config trigger dry now s).0
  perform (check_on_demand now) s = (run_auto_rotation_check_on_demand crypto reader config now s).0
  perform (tick boot_tick_pending now) s = run_tick crypto reader config boot_tick_pending now s

  abbrev pub perform_all : List (Command Options) → State → State
  perform_all [] s = s
  perform_all (c ∷ cs) s = perform_all cs (perform c s)
