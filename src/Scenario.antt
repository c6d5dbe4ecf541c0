-- ===== src/Scenario.antt =====
-- controller/materialiser.py, the runtime_scenarios of a topology: their check and the timeline of
-- phases that the runner gets. The check compares the numbers as the document has them, a whole
-- number exactly; the timeline has the floats that they convert to. A phase_id is a text or is
-- absent.
pub mod Contiguous
pub mod Sources
mod Tests
use mathlib.Core.Option
use cloud_native_emulator.Prelude.{
  String, Bool, true, false, not, ◌||◌, Option, none, some, List, [], ◌∷◌, if◌then◌else◌, ite,
  text_dec,
}
use cloud_native_emulator.Prelude.Dict.{Dict, lookup, insert}
use cloud_native_emulator.Prelude.Float.{Float}
use cloud_native_emulator.Prelude.Int.{ℤ, pos, ltb_ℤ, eqb_ℤ}
use cloud_native_emulator.Prelude.Result.{
  Result, ok, err, value_error, ◌>>=◌, ◌>>◌, guard, phases_not_an_array, phase_not_an_object,
  phase_window_not_numbers, phase_ends_early, first_phase_late, phase_not_contiguous, phase_sets,
  phase_x_shape, phase_x_empty, not_a_source, phase_x_not_a_number,
}
use cloud_native_emulator.Prelude.Sets.{contains}
use cloud_native_emulator.Json
use cloud_native_emulator.Json.{Json, Items, Fields, entries, no_items}
use cloud_native_emulator.Merge.{get}
use cloud_native_emulator.Runner.{Phase}
use cloud_native_emulator.Template.{InputX, number, per_source}

-- An app, and a description of a deployment, with the texts that are given and not empty.
pub record App : Type 0 where
  pub app_id : Option String
  pub deployment_ref : Option String

pub record Deployment : Type 0 where
  pub deployment_id : Option String
  pub deployment_name : Option String

-- role_by_dep; `sanitize` is `_sanitize_name`
unfoldable pub role_by_deployment : (String → String) → Dict String → List Deployment → Dict String
unfolding insert
role_by_deployment sanitize out [] = out
role_by_deployment sanitize out (d ∷ ds) = elim d.deployment_id [
  | none ↦ role_by_deployment sanitize out ds
  | some id ↦ elim d.deployment_name [
    | none ↦ role_by_deployment sanitize out ds
    | some name ↦ role_by_deployment sanitize (insert id (sanitize name) out) ds
  ]
]

unfoldable pub roles_of_apps : Dict String → Dict String → List App → Dict String
unfolding insert lookup
roles_of_apps by_deployment out [] = out
roles_of_apps by_deployment out (a ∷ rest) = elim a.app_id [
  | none ↦ roles_of_apps by_deployment out rest
  | some id ↦ elim a.deployment_ref [
    | none ↦ roles_of_apps by_deployment out rest
    | some ref ↦ elim (lookup ref by_deployment) [
      | none ↦ roles_of_apps by_deployment out rest
      | some role ↦ roles_of_apps by_deployment (insert id role out) rest
    ]
  ]
]

-- `_role_by_app_id`
abbrev pub role_by_app_id : (String → String) → List Deployment → List App → Dict String
role_by_app_id sanitize deployments apps =
    roles_of_apps (role_by_deployment sanitize [] deployments) [] apps

-- `_source_app_ids`: the apps with a role that are the target of no edge
unfoldable pub source_app_ids : List String → Dict String → List String
unfolding contains
source_app_ids targets [] = []
source_app_ids targets ((id, role) ∷ rest) =
    if contains targets id then source_app_ids targets rest else id ∷ source_app_ids targets rest

module _ (fl : Float) where
  open fl use {F, of_int, less, equal, int_less, less_int, int_equal}

  -- `_is_number`, with the number
  unfoldable pub as_number : Json F → Option F
  as_number (Json.integer n) = some (of_int n)
  as_number (Json.real v) = some v
  as_number j = none

  -- A number as the document has it: `_is_number`, with the number
  pub data Number : Type 0 where
    whole : ℤ → Number
    decimal : F → Number

  unfoldable pub as_written : Json F → Option Number
  as_written (Json.integer n) = some (whole n)
  as_written (Json.real v) = some (decimal v)
  as_written j = none

  abbrev pub written_at : String → Fields F → Option Number
  written_at k d = elim (get k d) [ none ↦ none | some j ↦ as_written j ]

  -- float(n), of a number that it takes
  abbrev pub value : Number → F
  value (whole n) = of_int n
  value (decimal v) = v

  abbrev pub number_at : String → Fields F → Option F
  number_at k d = Option.map value (written_at k d)

  -- a == b, a < b and a <= b
  abbrev pub same_number : Number → Number → Bool
  same_number (whole m) (whole n) = eqb_ℤ m n
  same_number (whole m) (decimal b) = int_equal m b
  same_number (decimal a) (whole n) = int_equal n a
  same_number (decimal a) (decimal b) = equal a b

  abbrev pub below : Number → Number → Bool
  below (whole m) (whole n) = ltb_ℤ m n
  below (whole m) (decimal b) = int_less m b
  below (decimal a) (whole n) = less_int a n
  below (decimal a) (decimal b) = less a b

  abbrev pub no_later : Number → Number → Bool
  no_later a b = below a b || same_number a b

  -- The loop of `_validate_phase_x` over the entries of an object.
  unfoldable pub check_sources : List String → Dict (Json F) → Result (Unit {0})
  unfolding as_number contains
  check_sources sources [] = ok tt
  check_sources sources ((app, v) ∷ rest) = do
    guard (contains sources app) (value_error (not_a_source app))
    elim (as_number v) [
      | none ↦ err (value_error (phase_x_not_a_number app))
      | some n ↦ check_sources sources rest
    ]

  -- `_validate_phase_x`
  unfoldable pub validate_phase_x : List String → Option (Json F) → Result (Unit {0})
  unfolding check_sources
  validate_phase_x sources (some (Json.integer n)) = ok tt
  validate_phase_x sources (some (Json.real v)) = ok tt
  validate_phase_x sources (some (Json.object Json.no_fields)) = err (value_error phase_x_empty)
  validate_phase_x sources (some (Json.object (Json.field k v rest))) =
      check_sources sources ((k, v) ∷ entries rest)
  validate_phase_x sources j = err (value_error phase_x_shape)

  -- `if ax in ph`
  abbrev pub refuse_key : String → Fields F → Result (Unit {0})
  refuse_key ax ph = elim (get ax ph) [ none ↦ ok tt | some j ↦ err (value_error (phase_sets ax)) ]

  -- The tests on a phase's window; the end is the next phase's start.
  unfoldable pub check_window : Bool → Number → Option Number → Option Number → Result Number
  check_window first prev none end = err (value_error phase_window_not_numbers)
  check_window first prev (some start) none = err (value_error phase_window_not_numbers)
  check_window first prev (some start) (some end) = do
    guard (not (no_later end start)) (value_error phase_ends_early)
    guard (same_number start prev)
        (value_error (if first then first_phase_late else phase_not_contiguous))
    ok end

  -- The body of the loop of `_validate_runtime_scenarios`.
  unfoldable pub check_phase : List String → Bool → Number → Json F → Result Number
  unfolding check_window validate_phase_x as_written get
  check_phase sources first prev (Json.object ph) = do
    refuse_key "cpu" ph
    refuse_key "ram" ph
    refuse_key "net" ph
    end ← check_window first prev (written_at "start_min" ph) (written_at "end_min" ph)
    validate_phase_x sources (get "x" ph)
    ok end
  check_phase sources first prev j = err (value_error phase_not_an_object)

  unfoldable pub check_phases : List String → Bool → Number → Items F → Result (Unit {0})
  unfolding check_phase
  check_phases sources first prev Json.no_items = ok tt
  check_phases sources first prev (Json.item ph rest) =
      check_phase sources first prev ph >>= λ end. check_phases sources false end rest

  -- `_validate_runtime_scenarios`, of the document's field
  unfoldable pub validate_scenarios : List String → Option (Json F) → Result (Unit {0})
  unfolding check_phases
  validate_scenarios sources none = ok tt
  validate_scenarios sources (some Json.null) = ok tt
  validate_scenarios sources (some (Json.array phases)) =
      check_phases sources true (decimal (of_int (pos 0))) phases
  validate_scenarios sources (some j) = err (value_error phases_not_an_array)

  abbrev pub or_zero_number : Option F → F
  or_zero_number none = of_int (pos 0)
  or_zero_number (some n) = n

  -- `_x_to_roles`: the loop over an object
  unfoldable pub rekey : Dict String → Dict F → Dict (Json F) → Dict F
  unfolding lookup insert as_number
  rekey roles out [] = out
  rekey roles out ((app, v) ∷ rest) = elim (lookup app roles) [
    | none ↦ rekey roles out rest
    | some role ↦ rekey roles (insert role (or_zero_number (as_number v)) out) rest
  ]

  -- `_x_to_roles`, of an x that has been checked and whose numbers float() takes
  unfoldable pub x_to_roles : Dict String → Option (Json F) → InputX F
  unfolding rekey as_number
  x_to_roles roles (some (Json.object x)) = per_source (rekey roles [] (entries x))
  x_to_roles roles none = number (of_int (pos 0))
  x_to_roles roles (some x) = number (or_zero_number (as_number x))

  abbrev pub text_of : Option (Json F) → Option String
  text_of (some (Json.text s)) = some s
  text_of j = none

  -- One phase of `scenario_x_timeline`.
  abbrev pub phase_of : Dict String → Fields F → Phase F
  phase_of roles ph = record {
    phase_id = text_of (get "phase_id" ph);
    start_min = or_zero_number (number_at "start_min" ph);
    end_min = or_zero_number (number_at "end_min" ph);
    x = x_to_roles roles (get "x" ph);
  }

  -- `scenario_x_timeline`, of phases that have been checked and whose numbers float() takes
  unfoldable pub scenario_x_timeline : Dict String → Items F → List (Phase F)
  unfolding x_to_roles as_written
  scenario_x_timeline roles Json.no_items = []
  scenario_x_timeline roles (Json.item (Json.object ph) rest) =
      phase_of roles ph ∷ scenario_x_timeline roles rest
  scenario_x_timeline roles (Json.item j rest) = scenario_x_timeline roles rest
