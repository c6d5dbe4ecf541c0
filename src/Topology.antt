-- ===== src/Topology.antt =====
-- controller/materialiser.py, `validate_topology`: what its checks find in a document, section by
-- section. The id of an app is a text or is absent.
mod Read
pub mod Names
pub mod Translate
pub mod Document
pub mod Roles
pub mod Made
pub mod Deployments
pub mod Accepted
pub mod Sites
pub mod Guarded
mod Tests
unfoldable pub use Read.*
use cloud_native_emulator.Prelude.{
  String, Bool, true, false, not, Option, none, some, List, [], ◌∷◌, if◌then◌else◌, map, ℕ,
}
use cloud_native_emulator.Prelude.Dict.{Dict, has_key}
use cloud_native_emulator.Prelude.Float.{Float}
use cloud_native_emulator.Prelude.Int.{pos}
use cloud_native_emulator.Prelude.Result.{
  Result, ok, err, Error, value_error, type_error, ◌>>=◌, ◌>>◌, guard, topology_not_an_object,
  no_sites, site_not_an_object, no_site_id, no_tier_id, link_end, no_deployments,
  deployment_not_an_object, no_deployment_id, no_deployment_name, no_site_for_tier,
  replicas_not_positive, no_such_deployment, load_not_an_object, coefficient_not_a_number,
  app_edge_not_an_object, app_edge_end,
}
use cloud_native_emulator.Prelude.Sets.{contains}
use cloud_native_emulator.Json
use cloud_native_emulator.Json.{Json, Items, Fields, integer, no_fields, no_items}
use cloud_native_emulator.Links.{is_empty}
use cloud_native_emulator.Merge.{get}
use cloud_native_emulator.Scenario.{
  App, Deployment, role_by_app_id, source_app_ids, validate_scenarios, as_number,
}
use cloud_native_emulator.Template.{Axis}
use cloud_native_emulator.Topology.Names.{sanitize_name}
use cloud_native_emulator.Validation.{edge_items, truthy, positive_int}

module _ (fl : Float) where
  open fl use {F, of_int}

  abbrev pub as_fields : Json F → Result (Fields F)
  as_fields (Json.object d) = ok d
  as_fields j = err type_error

  -- (d.get(k) or {}), which is then asked for a key
  abbrev pub fields_or_none : Option (Json F) → Result (Fields F)
  fields_or_none none = ok no_fields
  fields_or_none (some j) = if truthy fl j then as_fields j else ok no_fields

  unfoldable pub read_description : List String → Json F → Result (Description F)
  unfolding get
  read_description tiers (Json.object d) = do
    id ← some_text (value_error no_deployment_id) (get "deployment_id" d)
    name ← some_text (value_error (no_deployment_name id)) (get "deployment_name" d)
    selector ← fields_or_none (get "node_selector" d)
    tier ←
        optional_member tiers (value_error (no_site_for_tier id)) (get "topology.tier_id" selector)
    replicas ← replicas_given id (get "replicas" d)
    ok (record {
      deployment_id = id;
      deployment_name = name;
      tier = tier;
      replicas = replicas;
      node = get "node_name" d;
      namespace = get "namespace" d;
    })
  read_description tiers j = err (value_error deployment_not_an_object)

  -- A coefficient: 0 where it is not given.
  abbrev pub coefficient : Option (Json F) → Result F
  unfolding as_number
  coefficient none = ok (of_int (pos 0))
  coefficient (some j) = elim (as_number fl j) [
    | none ↦ err (value_error coefficient_not_a_number)
    | some v ↦ ok v
  ]

  abbrev pub load_axis : Option (Json F) → Result (Axis F)
  load_axis none = ok (record { a = of_int (pos 0); b = of_int (pos 0) })
  load_axis (some Json.null) = ok (record { a = of_int (pos 0); b = of_int (pos 0) })
  load_axis (some (Json.object sub)) = do
    a ← coefficient (get "a" sub)
    b ← coefficient (get "b" sub)
    ok (record { a = a; b = b })
  load_axis (some j) = err (value_error load_not_an_object)

  -- `_validate_app_load`, with the load that `_app_load` then makes
  unfoldable pub read_load : Option (Json F) → Result (Option (Load F))
  unfolding get coefficient
  read_load none = ok none
  read_load (some Json.null) = ok none
  read_load (some (Json.object load)) = do
    cpu ← load_axis (get "cpu" load)
    ram ← load_axis (get "ram" load)
    net ← load_axis (get "net" load)
    ok (some (record { cpu = cpu; ram = ram; net = net }))
  read_load (some j) = err (value_error load_not_an_object)

  unfoldable pub read_app : List String → Json F → Result (AppEntry F)
  unfolding get read_load
  read_app deployments (Json.object d) = do
    id ← text_or_absent (get "app_id" d)
    inner ← fields_or_none (get "app" d)
    ref ← optional_member deployments (value_error no_such_deployment) (get "deployment_ref" inner)
    load ← read_load (get "load" d)
    ok (record { app_id = id; deployment_ref = ref; load = load })
  read_app deployments j = err type_error

  -- An end of an edge: an app that deploys a workload.
  abbrev pub edge_end : List String → Dict String → String → Option (Json F) → Result String
  edge_end apps roles end j = do
    app ← member apps (value_error (app_edge_end end)) (given Json.null j)
    guard (has_key app roles) (value_error (app_edge_end end))
    ok app

  unfoldable pub read_edge : List String → Dict String → Json F → Result AppEdge
  unfolding get
  read_edge apps roles (Json.object d) = do
    source ← edge_end apps roles "source_app_id" (get "source_app_id" d)
    target ← edge_end apps roles "target_app_id" (get "target_app_id" d)
    ok (record { source = source; target = target })
  read_edge apps roles j = err (value_error app_edge_not_an_object)

  abbrev pub given_text : Option String → Option String
  given_text none = none
  given_text (some s) = if is_empty s then none else some s

  -- `_role_by_app_id`, on what has been read.
  abbrev pub roles_by_app : List (Description F) → List (AppEntry F) → Dict String
  roles_by_app deployments apps =
      role_by_app_id sanitize_name
        (map
          (λ d. record {
            deployment_id = some d.deployment_id;
            deployment_name = some d.deployment_name;
          })
          deployments)
        (map (λ a. record { app_id = given_text a.app_id; deployment_ref = a.deployment_ref }) apps)

  unfoldable pub ids_of : List (AppEntry F) → List String
  ids_of [] = []
  ids_of (a ∷ rest) = elim a.app_id [ none ↦ ids_of rest | some id ↦ id ∷ ids_of rest ]

  -- The checks of the sites, the links and the deployments.
  unfoldable pub check_places : Fields F → Result (Places F)
  unfolding get read_all read_site read_link read_description
  check_places d = do
    site_items ← some_items (value_error no_sites) (get "sites" d)
    sites ← read_all read_site site_items
    link_items ← edge_items fl (get "network_links" d)
    links ← read_all (read_link (map (λ s. s.site_id) sites)) link_items
    items ← some_items (value_error no_deployments) (get "k8s_app_description" d)
    deployments ← read_all (read_description (map (λ s. s.tier_id) sites)) items
    ok (record { sites = sites; links = links; deployments = deployments })

  -- The checks of the apps and of their edges.
  unfoldable pub check_traffic : List (Description F) → Fields F → Result (Traffic F)
  unfolding get read_all read_app read_edge sanitize_name ids_of
  check_traffic deployments d = do
    app_items ← edge_items fl (get "apps" d)
    apps ← read_all (read_app (map (λ d. d.deployment_id) deployments)) app_items
    edge_list ← edge_items fl (get "app_edges" d)
    edges ← read_all (read_edge (ids_of apps) (roles_by_app deployments apps)) edge_list
    ok (record { apps = apps; edges = edges })

  -- The checks of `validate_topology` before the translation.
  unfoldable pub check_topology : Json F → Result (Topology F)
  unfolding check_places check_traffic validate_scenarios source_app_ids
  check_topology (Json.object d) = do
    places ← check_places d
    traffic ← check_traffic places.deployments d
    validate_scenarios fl
        (source_app_ids (map (λ e. e.target) traffic.edges)
          (roles_by_app places.deployments traffic.apps))
        (get "runtime_scenarios" d)
    ok (record {
      body = d;
      sites = places.sites;
      links = places.links;
      deployments = places.deployments;
      apps = traffic.apps;
      edges = traffic.edges;
    })
  check_topology j = err (value_error topology_not_an_object)
