-- ===== src/Topology/Tests.antt =====
-- A topology of two sites, with an app on each.
use cloud_native_emulator.Prelude.{
  ℕ, ◌≡◌, refl, String, Bool, false, Option, some, List, [], text_dec, codes, inl, inr, none, ◌∷◌,
}
use cloud_native_emulator.Prelude.Dict.{lookup, insert}
use cloud_native_emulator.Prelude.Int.{ℤ, pos, ◌+ℤ◌, ◌*ℤ◌}
use cloud_native_emulator.Prelude.Result.{ok, err, value_error, no_site_for_tier, tiers_not_ready}
use cloud_native_emulator.Prelude.Sets
use cloud_native_emulator.Prelude.Sets.{contains}
use cloud_native_emulator.Json.{
  Json, integer, text, array, object, no_items, item, no_fields, field,
}
use cloud_native_emulator.Links.{parse_rtt_us, validate_latency, validate_bandwidth}
use cloud_native_emulator.Merge.{get}
use cloud_native_emulator.Propagation.{compute_resolved_x}
use cloud_native_emulator.Samples.{whole}
use cloud_native_emulator.Scenario.{
  role_by_deployment, roles_of_apps, source_app_ids, validate_scenarios, scenario_x_timeline,
  as_number,
}
use cloud_native_emulator.Template.{number}
use cloud_native_emulator.Cluster.{node, selected, get_at, ◌>>=◌, lift, send}
use cloud_native_emulator.Cluster.Materialise.{Setting}
use cloud_native_emulator.Cluster.Sending.{Extends}
use cloud_native_emulator.Topology.Guarded.{IsGuarded, materialise_topology-IsGuarded}
use cloud_native_emulator.Topology.Sites.{materialise_topology, tier_label}
use cloud_native_emulator.Topology.{
  Topology, check_topology, check_places, check_traffic, read_all, read_site, read_link,
  read_description, read_load, read_app, read_edge, ids_of,
}
use cloud_native_emulator.Topology.Accepted.{validate_topology-accepted}
use cloud_native_emulator.Topology.Document.{document_of, validate_topology, check_translated}
use cloud_native_emulator.Topology.Names.{
  sanitize_name, letter_at, replace_runs, strip_left, strip_right,
}
use cloud_native_emulator.Topology.Translate.{
  Translated, app_loads, add_roles, add_links, add_edges, default_name, topology_name, rekey_all,
  translate_topology,
}
use cloud_native_emulator.Validation.{
  validate_template, float_or_zero, read_graph, read_x, read_roles, read_role, float_of,
}

abbrev site : String → String → String → Json ℤ
site id tier name = object (
    field "site_id" (text id)
      (field "tier_id" (text tier) (field "tier_name" (text name) no_fields)))

abbrev deployment : String → String → String → Json ℤ
deployment id name tier = object (
    field "deployment_id" (text id) (
      field "deployment_name" (text name) (
        field "node_selector" (object (field "topology.tier_id" (text tier) no_fields)) no_fields)))

abbrev axis : Json ℤ
axis = object (field "a" (integer (pos 2)) no_fields)

abbrev app : String → String → Json ℤ
app id ref = object (
    field "app_id" (text id) (
      field "app" (object (field "deployment_ref" (text ref) no_fields))
        (field "load" (object (field "net" axis no_fields)) no_fields)))

abbrev two : Json ℤ → Json ℤ → Json ℤ
two a b = array (item a (item b no_items))

abbrev document : String → Json ℤ
document tier = object (
    field "name" (text "My Shop!") (
      field "sites" (two (site "s1" "t1" "edge") (site "s2" "t2" "cloud")) (
        field "network_links"
          (array (
            item
              (object (
                field "source_site_id" (text "s1") (
                  field "target_site_id" (text "s2")
                    (field "one_way_ms" (integer (pos 20)) no_fields))))
              no_items))
          (field "k8s_app_description"
            (two (deployment "d1" "Front_End" "t1") (deployment "d2" "db" tier))
            (field "apps" (two (app "a1" "d1") (app "a2" "d2")) (
              field "app_edges"
                (array (
                  item
                    (object (
                      field "source_app_id" (text "a1")
                        (field "target_app_id" (text "a2") no_fields)))
                    no_items))
                (field "x" (integer (pos 7)) no_fields)))))))

abbrev show : Json ℤ → String
show j = "20"

abbrev round : ℤ → Option ℤ
round n = some n

abbrev as_given : List String → List String
as_given names = names

abbrev narrow : ℕ → Bool
narrow c = false

program : Unit {0}
unfolding check_topology check_places check_traffic read_all read_site read_link read_description
    read_load read_app read_edge ids_of validate_topology check_translated sanitize_name letter_at
    replace_runs strip_left strip_right app_loads add_roles add_links add_edges default_name
    topology_name rekey_all translate_topology float_or_zero read_graph read_x read_roles read_role
    float_of role_by_deployment roles_of_apps source_app_ids validate_scenarios scenario_x_timeline
    as_number compute_resolved_x validate_latency validate_bandwidth get lookup insert contains
    Sets.add text_dec codes parse_rtt_us ◌+ℤ◌ ◌*ℤ◌
program = tt

sanitize_name-shop : sanitize_name "My Shop!" ≡ "my-shop"
unfolding program
sanitize_name-shop = refl

sanitize_name-empty : sanitize_name "-_-" ≡ "topology"
unfolding program
sanitize_name-empty = refl

no_site :
    validate_topology whole as_given show round (document "t3")
    ≡ err (value_error (no_site_for_tier "d2"))
unfolding program
no_site = refl

topology : Topology ℤ
unfolding program
topology = elim (validate_topology whole as_given show round (document "t2")) [
  | ok t ↦ t
  | err why ↦ record {
    body = no_fields;
    sites = [];
    links = [];
    deployments = [];
    apps = [];
    edges = [];
  }
]

validate_topology-document :
    validate_topology whole as_given show round (document "t2") ≡ ok topology
unfolding program topology
validate_topology-document = refl

translated : Translated ℤ
unfolding program topology
translated = elim (translate_topology whole show round topology) [
  | ok t ↦ t
  | err why ↦ record {
    name = "";
    x = number (pos 0);
    roles = [];
    edges = [];
    latency = [];
    bandwidth = [];
  }
]

validate_topology-accepted_example :
    validate_template whole narrow as_given (object (document_of translated)) ≡ ok tt
unfolding program topology translated
validate_topology-accepted_example =
    validate_topology-accepted whole show round narrow as_given (document "t2") topology translated
      validate_topology-document refl
      ((inr ("edge", refl, refl), inl refl), ((inr ("cloud", refl, refl), inl refl), tt))

abbrev condition : String → Json ℤ
condition status = object (field "type" (text "Ready") (field "status" (text status) no_fields))

-- A server with one node, of this readiness, which refuses every other request.
abbrev setting : String → Setting whole
setting status = record {
  server = λ h r. record {
    status = 200;
    body = some (
        object (
          field "items"
            (array (
              item
                (object (
                  field "metadata" (object (field "name" (text "vm-1") no_fields)) (
                    field "status"
                      (object
                        (field "conditions" (array (item (condition status) no_items)) no_fields))
                      no_fields)))
                no_items))
            no_fields));
  };
  blueprint = [];
  image = "worker:1";
  wide = narrow;
  order = as_given;
  pair_order = λ s. s;
  load_all = λ s. ok [];
  dumps = show;
  loads = λ s. none;
  pods = λ h. record { source_pods = λ s. []; target_pods = λ s. [] };
  polled = λ h. [];
}

-- No node is ready: nothing but the reads of the two tiers' nodes.
not_ready :
    materialise_topology whole (setting "False") show show round (document "t2") "http" [] ≡ (
      err (value_error (tiers_not_ready ("t1" ∷ "t2" ∷ []))),
      get_at (selected node tier_label "t2") ∷ get_at (selected node tier_label "t1") ∷ [],
    )
unfolding program materialise_topology ◌>>=◌ lift send
not_ready = refl

materialise_topology-IsGuarded_example :
    Extends
      (IsGuarded whole (setting "True") show show round (document "t2") "http")
      []
      (materialise_topology whole (setting "True") show show round (document "t2") "http" []).1
materialise_topology-IsGuarded_example =
    materialise_topology-IsGuarded whole (setting "True") show show round (document "t2") "http" []
