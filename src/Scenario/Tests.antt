-- ===== src/Scenario/Tests.antt =====
-- A scenario of two phases, and its theorems.
use cloud_native_emulator.Prelude.{◌≡◌, ◌≢◌, refl, String, none, some, List, [], ◌∷◌, All, text_dec}
use cloud_native_emulator.Prelude.Dict.{Dict, lookup, insert}
use cloud_native_emulator.Prelude.Int.{ℤ, pos}
use cloud_native_emulator.Prelude.Result.{ok, err, value_error, not_a_source}
use cloud_native_emulator.Prelude.Sets.{contains}
use cloud_native_emulator.Samples.{whole}
use cloud_native_emulator.Json.{
  Items, Fields, entries, integer, object, array, no_fields, field, no_items, item,
}
use cloud_native_emulator.Merge.{get}
use cloud_native_emulator.Scenario.{
  App, Deployment, role_by_app_id, role_by_deployment, roles_of_apps, source_app_ids,
  validate_scenarios, check_phases, check_phase, check_window, validate_phase_x, check_sources,
  decimal, as_written, as_number, scenario_x_timeline, x_to_roles, rekey,
}
use cloud_native_emulator.Scenario.Contiguous.{IsChained, validate_scenarios-IsChained}
use cloud_native_emulator.Scenario.Sources.{IsSourceX, validate_phase_x-IsSourceX}

abbrev sanitize : String → String
sanitize s = s

abbrev deployments : List Deployment
deployments =
    record { deployment_id = some "d1"; deployment_name = some "front" }
    ∷ record { deployment_id = some "d2"; deployment_name = some "back" }
    ∷ []

abbrev apps : List App
apps =
    record { app_id = some "a1"; deployment_ref = some "d1" }
    ∷ record { app_id = some "a2"; deployment_ref = some "d2" }
    ∷ record { app_id = some "a3"; deployment_ref = none }
    ∷ []

abbrev roles : Dict String
roles = ("a1", "front") ∷ ("a2", "back") ∷ []

abbrev sources : List String
sources = "a1" ∷ []

abbrev x_of : String → Fields ℤ
x_of app = field app (integer (pos 80)) no_fields

abbrev phases : Fields ℤ → Items ℤ
phases x =
    item
      (object (
        field "start_min" (integer (pos 0))
          (field "end_min" (integer (pos 5)) (field "x" (integer (pos 3)) no_fields))))
      (item
        (object (
          field "start_min" (integer (pos 5))
            (field "end_min" (integer (pos 9)) (field "x" (object x) no_fields))))
        no_items)

program : Unit {0}
unfolding role_by_deployment roles_of_apps source_app_ids validate_scenarios check_phases
    check_phase check_window validate_phase_x check_sources as_number as_written scenario_x_timeline
    x_to_roles rekey get lookup insert contains text_dec
program = tt

role_by_app_id-apps : role_by_app_id sanitize deployments apps ≡ roles
unfolding program
role_by_app_id-apps = refl

source_app_ids-apps : source_app_ids ("a2" ∷ []) roles ≡ sources
unfolding program
source_app_ids-apps = refl

validate_scenarios-phases :
    validate_scenarios whole sources (some (array (phases (x_of "a1")))) ≡ ok tt
unfolding program
validate_scenarios-phases = refl

-- a2 is fed by an edge.
validate_scenarios-target :
    validate_scenarios whole sources (some (array (phases (x_of "a2"))))
    ≡ err (value_error (not_a_source "a2"))
unfolding program
validate_scenarios-target = refl

validate_scenarios-IsChained_example :
    IsChained whole
      (decimal (pos 0))
      (phases (x_of "a1"))
      (scenario_x_timeline whole roles (phases (x_of "a1")))
validate_scenarios-IsChained_example =
    validate_scenarios-IsChained whole sources roles (phases (x_of "a1")) validate_scenarios-phases

validate_phase_x-IsSourceX_example :
    (entries (x_of "a1") ≢ []) × All (IsSourceX whole sources) (entries (x_of "a1"))
unfolding program
validate_phase_x-IsSourceX_example = validate_phase_x-IsSourceX whole sources (x_of "a1") refl
