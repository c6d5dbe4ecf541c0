-- ===== src/Validation/Tests.antt =====
-- A template of two roles as a document.
use cloud_native_emulator.Prelude.{ℕ, ◌≡◌, refl, String, Bool, false, List, text_dec, codes}
use cloud_native_emulator.Prelude.Dict.{Dict, keys, lookup}
use cloud_native_emulator.Prelude.Int.{ℤ, pos}
use cloud_native_emulator.Prelude.Result.{ok, err, value_error, unknown_to, ok_subst}
use cloud_native_emulator.Prelude.Sets
use cloud_native_emulator.Prelude.Sets.{contains, IsNodup}
use cloud_native_emulator.Json.{
  Json, integer, text, array, object, no_items, item, no_fields, field, entries,
}
use cloud_native_emulator.Links.{validate_latency}
use cloud_native_emulator.Merge.{get}
use cloud_native_emulator.Propagation.{compute_resolved_x}
use cloud_native_emulator.Propagation.Correct.{IsAcyclic}
use cloud_native_emulator.Propagation.Invariant.{IsSetOrder}
use cloud_native_emulator.Propagation.Solution.{Solves}
use cloud_native_emulator.Samples.{whole}
use cloud_native_emulator.Template.{Template, IsWellFormed}
use cloud_native_emulator.Validation.{
  Checked, check_shape, check_role, check_roles, check_edge, check_edges, float_of, float_or_zero,
  read_x, read_role, read_roles, read_graph, read_sources, validate_template,
}
use cloud_native_emulator.Validation.Accepted.{validate_template-resolves}

abbrev axis_of : ℕ → ℕ → Json ℤ
axis_of a b = object (field "a" (integer (pos a)) (field "b" (integer (pos b)) no_fields))

abbrev role_json : ℕ → Json ℤ
role_json n = object (
    field "count" (integer (pos n))
      (field "cpu" (axis_of 1 2) (field "ram" (axis_of 3 4) (field "net" (axis_of 2 1) no_fields))))

abbrev edge_of : String → String → Json ℤ
edge_of src dst = object (field "from" (text src) (field "to" (text dst) no_fields))

abbrev document : String → Json ℤ
document dst = object (
    field "name" (text "shop-2") (
      field "x" (integer (pos 10)) (
        field "roles" (object (field "web" (role_json 2) (field "db" (role_json 1) no_fields)))
          (field "edges" (array (item (edge_of "web" dst) no_items)) no_fields))))

abbrev narrow : ℕ → Bool
narrow c = false

program : Unit {0}
unfolding check_shape check_role check_roles check_edge check_edges float_of float_or_zero read_x
    read_role read_roles read_graph read_sources validate_template compute_resolved_x get contains
    text_dec codes validate_latency Sets.add
program = tt

abbrev as_given : List String → List String
as_given names = names

as_given-IsSetOrder : IsSetOrder as_given
as_given-IsSetOrder = record { same = λ s a. refl; once = λ s d. d }

validate_template-document : validate_template whole narrow as_given (document "db") ≡ ok tt
unfolding program lookup
validate_template-document = refl

validate_template_unknown :
    validate_template whole narrow as_given (document "cache") ≡ err (value_error unknown_to)
unfolding program
validate_template_unknown = refl

document-roles :
    (c : Checked ℤ)
    → check_shape whole narrow (document "db") ≡ ok c
    → IsNodup (keys (entries c.roles))
unfolding program
document-roles c h =
    ok_subst (λ (c : Checked ℤ). IsNodup (keys (entries c.roles))) h (refl, (refl, tt))

validate_template-resolves_example :
    (c : Checked ℤ) × (t : Template ℤ) × (resolved : Dict ℤ) × (check_shape whole narrow
        (document "db")
      ≡ ok c)
    × (read_graph whole c ≡ ok t)
    × (compute_resolved_x whole as_given t ≡ ok resolved)
    × IsWellFormed t
    × IsAcyclic t
    × Solves whole t resolved
validate_template-resolves_example =
    validate_template-resolves whole narrow as_given as_given-IsSetOrder (document "db")
      document-roles validate_template-document
