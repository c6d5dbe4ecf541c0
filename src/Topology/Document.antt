-- ===== src/Topology/Document.antt =====
-- controller/materialiser.py: the dict that `translate_topology` makes as a document, and
-- `validate_topology` as a whole.
use cloud_native_emulator.Prelude.{String, Option, List, [], ◌∷◌, some, none, ℕ}
use cloud_native_emulator.Prelude.Dict.{Dict}
use cloud_native_emulator.Prelude.Float.{Float}
use cloud_native_emulator.Prelude.Int.{ℤ, pos}
use cloud_native_emulator.Prelude.Result.{Result, ok, ◌>>=◌, ◌>>◌}
use cloud_native_emulator.Json.{
  Json, Items, Fields, integer, real, text, object, array, no_fields, no_items, field, item,
}
use cloud_native_emulator.Links.{validate_latency, validate_bandwidth}
use cloud_native_emulator.Merge.{get}
use cloud_native_emulator.Propagation.{compute_resolved_x}
use cloud_native_emulator.Template.{Axis, Edge, InputX, number, per_source}
use cloud_native_emulator.Topology.{Load, Topology, check_topology}
use cloud_native_emulator.Topology.Translate.{RoleDef, Translated, translate_topology}
use cloud_native_emulator.Validation.{Checked, or_null, read_graph}

module _ {F : Type 0} where
  abbrev pub axis_json : Axis F → Json F
  axis_json f = object (field "a" (real f.a) (field "b" (real f.b) no_fields))

  -- {"a": 0, "b": 0}
  abbrev pub idle : Json F
  idle = object (field "a" (integer (pos 0)) (field "b" (integer (pos 0)) no_fields))

  abbrev pub axis_or_idle : (Load F → Axis F) → Option (Load F) → Json F
  axis_or_idle ax none = idle
  axis_or_idle ax (some load) = axis_json (ax load)

  abbrev pub optional_field : String → Option (Json F) → Fields F → Fields F
  optional_field k none rest = rest
  optional_field k (some j) rest = field k j rest

  -- role_def
  abbrev pub role_object : RoleDef F → Json F
  role_object r = object (
      field "count" (integer (pos r.count)) (
        field "cpu" (axis_or_idle (λ l. l.cpu) r.load) (
          field "ram" (axis_or_idle (λ l. l.ram) r.load) (
            field "net" (axis_or_idle (λ l. l.net) r.load)
              (optional_field "tier" r.tier (optional_field "node" r.node no_fields))))))

  abbrev pub roles_json : Dict (RoleDef F) → Fields F
  roles_json [] = no_fields
  roles_json ((role, r) ∷ rest) = field role (role_object r) (roles_json rest)

  abbrev pub edges_json : List Edge → Items F
  edges_json [] = no_items
  edges_json (e ∷ rest) =
      item (object (field "from" (text e.src) (field "to" (text e.dst) no_fields)))
        (edges_json rest)

  abbrev pub numbers_json : Dict F → Fields F
  numbers_json [] = no_fields
  numbers_json ((k, v) ∷ rest) = field k (real v) (numbers_json rest)

  abbrev pub x_json : InputX F → Json F
  x_json (number v) = real v
  x_json (per_source d) = object (numbers_json d)

  abbrev pub texts_json : Dict String → Fields F
  texts_json [] = no_fields
  texts_json ((k, s) ∷ rest) = field k (text s) (texts_json rest)

  abbrev pub shaped_json : Dict (Dict String) → Fields F
  shaped_json [] = no_fields
  shaped_json ((k, d) ∷ rest) = field k (object (texts_json d)) (shaped_json rest)

  abbrev pub shaped_field : String → Dict (Dict String) → Fields F → Fields F
  shaped_field k [] rest = rest
  shaped_field k (e ∷ d) rest = field k (object (shaped_json (e ∷ d))) rest

  -- The dict that `translate_topology` returns.
  abbrev pub document_of : Translated F → Fields F
  document_of t = field "name" (text t.name) (
      field "x" (x_json t.x) (
        field "roles" (object (roles_json t.roles)) (
          field "edges" (array (edges_json t.edges))
            (shaped_field "latency" t.latency (shaped_field "bandwidth" t.bandwidth no_fields)))))

  abbrev pub counts_of : Dict (RoleDef F) → Dict ℕ
  counts_of [] = []
  counts_of ((role, r) ∷ rest) = (role, r.count) ∷ counts_of rest

  -- What `_compute_resolved_x` reads from that dict.
  abbrev pub checked_of : Translated F → Checked F
  checked_of t = record {
    name = t.name;
    body = document_of t;
    roles = roles_json t.roles;
    counts = counts_of t.roles;
    edges = t.edges;
  }

module _ (fl : Float) (order : List String → List String) where
  open fl use {F}

  -- The end of `validate_topology`.
  unfoldable pub check_translated : Translated F → Result (Unit {0})
  unfolding get validate_latency validate_bandwidth read_graph compute_resolved_x
  check_translated t = do
    delays ← validate_latency fl (or_null fl (get "latency" (document_of t)))
    rates ← validate_bandwidth fl (or_null fl (get "bandwidth" (document_of t)))
    graph ← read_graph fl (checked_of t)
    resolved ← compute_resolved_x fl order graph
    ok tt

  -- `validate_topology`, with the document that it has checked.
  unfoldable pub validate_topology :
      (Json F → String) → (F → Option ℤ) → Json F → Result (Topology F)
  unfolding check_topology translate_topology check_translated
  validate_topology str round j = do
    t ← check_topology fl j
    translated ← translate_topology fl str round t
    check_translated translated
    ok t
