-- ===== src/Cluster/Materialise.antt =====
-- `materialise`, with `apply` of controller/netem.py, which ends it.
use cloud_native_emulator.Prelude.{
  ℕ, String, Bool, true, false, ◌&&◌, ◌||◌, ◌<>◌, Option, none, some, List, [], ◌∷◌, if◌then◌else◌,
  ◌==◌, null, text_dec, ite,
}
use cloud_native_emulator.Prelude.Dict.{Dict, lookup}
use cloud_native_emulator.Prelude.Float.{Float}
use cloud_native_emulator.Prelude.Result
use cloud_native_emulator.Prelude.Result.{
  Result, ok, err, value_error, type_error, key_error, not_json,
}
use cloud_native_emulator.Json.{Json, Fields, text, object, entries}
use cloud_native_emulator.Links.{validate_latency, validate_bandwidth}
use cloud_native_emulator.Merge.{get, set}
use cloud_native_emulator.Peers.Offsets.{server_count}
use cloud_native_emulator.Peers.Resolve
use cloud_native_emulator.Peers.Resolve.{Links, Wiring, resolve_peer_ips}
use cloud_native_emulator.Peers.Services.{service, compute_fanin}
use cloud_native_emulator.Propagation.{compute_resolved_x}
use cloud_native_emulator.Shaping.{Command, apply_links}
use cloud_native_emulator.Template.{Template}
use cloud_native_emulator.Validation.{Checked, check_shape, read_graph, or_null, validate_template}
use cloud_native_emulator.Cluster.{
  config_map, endpoints, named, get_at, patch_at, run_on, History, Server, Calls, ◌>>=◌, ◌>>◌, lift,
  done, send, for_each, one, apply, unpin_node, branch,
}
use cloud_native_emulator.Cluster.Answers.{role_text, rescue, delete_managed}
use cloud_native_emulator.Cluster.Nodes.{list_nodes}
use cloud_native_emulator.Cluster.Trees.{in_default, assign, update_with}
use cloud_native_emulator.Cluster.Roles.{PeerConfig, no_peers, role_config, render_role, is_kind}

-- What the program runs on: the API server, the blueprint and the image, Python's order of sets,
-- yaml.safe_load_all, json.dumps and json.loads. `polled` are the services whose Endpoints are
-- read from a moment on, in order, each as often as the clock allows before its deadline, and
-- `pods` is what these reads come to.
pub record Setting (fl : Float) : Type 0 where
  pub server : Server (fl.F)
  pub blueprint : List ℕ
  pub image : String
  pub wide : ℕ → Bool
  pub order : List String → List String
  pub pair_order : List (String × String) → List (String × String)
  pub load_all : List ℕ → Result (List (Json (fl.F)))
  pub dumps : Json (fl.F) → String
  pub loads : String → Option (Json (fl.F))
  pub polled : History (fl.F) → List String
  pub pods : History (fl.F) → Resolve.Cluster

abbrev pub template_annotation : String
template_annotation = "emulator.local/template"

abbrev pub source_annotation : String
source_annotation = "emulator.local/source"

abbrev pub or_key_error : {V : Type 0} → String → Option V → Result V
or_key_error k none = err (key_error k)
or_key_error k (some v) = ok v

abbrev pub config_name : String → String → String
config_name name role = service name role <> "-config"

-- What phase 2 hands to `_role_config` for a role.
abbrev pub role_peers : Wiring → String → Links → PeerConfig
role_peers w role links = record {
  ips = links.ips;
  servers = server_count w.table role;
  offsets = w.table.offsets role;
  names = links.names;
}

module _ (fl : Float) (on : Setting fl) where
  open fl use {F}

  unfoldable pub now : {V : Type 0} → (History F → V) → Calls F V
  now f h = (ok (f h), h)

  abbrev pub run_script : String × List Command → Calls F (Unit {0})
  run_script (node, script) = send on.server (run_on node script) >>= λ answer. done

  abbrev pub read_service : String → Calls F (Unit {0})
  read_service s = send on.server (get_at (named endpoints s)) >>= λ answer. done

  -- The reads of Endpoints by `_resolve_peer_ips`, with what they come to.
  unfoldable pub read_endpoints : Calls F Resolve.Cluster
  unfolding for_each now
  read_endpoints = do services ← now on.polled; for_each read_service services; now on.pods

  -- `apply` of netem.py
  unfoldable pub shape_links : Fields F → Calls F (Unit {0})
  unfolding for_each list_nodes validate_latency validate_bandwidth apply_links get
  shape_links body = rescue tt (do
    latency ← lift (validate_latency fl (or_null fl (get "latency" body)))
    bandwidth ← lift (validate_bandwidth fl (or_null fl (get "bandwidth" body)))
    nodes ← list_nodes on.server
    branch (null nodes) done
        (lift (apply_links fl on.pair_order latency bandwidth nodes) >>= for_each run_script))

  -- The stamps that a ConfigMap of the template gets.
  abbrev pub annotate : String → String → Fields F → Fields F → Fields F
  annotate template source extra ann =
      update_with
        (set source_annotation (text source) (set template_annotation (text template) ann)) extra

  -- The body of the loop over a role's documents.
  unfoldable pub stamp : String → String → String → Fields F → Json F → Result (Json F)
  unfolding in_default set get update_with
  stamp payload template source extra (Json.object d) =
      if is_kind "ConfigMap" (get "kind" d)
      then Result.◌>>=◌ (in_default "data" (assign "config.json" (text payload)) d) (λ d'.
        Result.◌>>=◌
          (in_default "metadata"
            (in_default "annotations" (λ ann. ok (annotate template source extra ann))) d')
          (λ e. ok (object e)))
      else ok (object d)
  stamp payload template source extra j = err type_error

  unfoldable pub stamp_all :
      String → String → String → Fields F → List (Json F) → Result (List (Json F))
  unfolding stamp
  stamp_all payload template source extra [] = ok []
  stamp_all payload template source extra (j ∷ js) =
      Result.◌>>=◌ (stamp payload template source extra j)
        (λ d. Result.◌>>=◌ (stamp_all payload template source extra js) (λ ds. ok (d ∷ ds)))

  -- The template as `materialise` holds it: what was checked, its annotation, the source and the
  -- annotations that the caller adds, `fanin` and `resolved_x`.
  pub record Plan : Type 0 where
    pub template : Checked F
    pub graph : Template F
    pub source : String
    pub extra : Fields F
    pub fanin : String → ℕ
    pub resolved : Dict F

  abbrev pub plan_name : Plan → String
  plan_name p = p.template.name

  -- json.dumps of the role's config
  unfoldable pub config_payload : Plan → String → Json F → PeerConfig → Result String
  unfolding role_config lookup
  config_payload p role j peers =
      Result.◌>>=◌ (or_key_error role (lookup role p.resolved))
        (λ x. Result.◌>>=◌ (role_config fl j peers x) (λ config. ok (on.dumps (object config))))

  -- The documents of a role, rendered and stamped.
  unfoldable pub role_documents : Plan → String → Json F → Result (List (Json F))
  unfolding render_role config_payload stamp_all lookup
  role_documents p role j =
      Result.◌>>=◌ (or_key_error role (lookup role p.template.counts)) (λ count.
        Result.◌>>=◌
          (render_role fl on.load_all on.blueprint p.template.name role count on.image
            (role_text "tier" j) (role_text "node" j))
          (λ docs. Result.◌>>=◌ (config_payload p role j (no_peers (p.fanin role))) (λ payload.
            stamp_all payload (on.dumps (object p.template.body)) p.source p.extra docs)))

  abbrev pub is_pinned : Option String → Bool
  is_pinned none = false
  is_pinned (some node) = ite (text_dec node "") false true

  -- `if not role.get("node")`
  unfoldable pub unpin_if_free : Plan → String → Json F → Calls F (Unit {0})
  unpin_if_free p role j =
      branch (is_pinned (role_text "node" j)) done
        (unpin_node on.server (service p.template.name role))

  -- Phase 1, for one role
  unfoldable pub create_role : Plan → String × Json F → Calls F (Unit {0})
  unfolding role_documents for_each unpin_if_free
  create_role p (role, j) = do
    docs ← lift (role_documents p role j)
    for_each (apply on.server) docs
    unpin_if_free p role j

  -- {"data": {"config.json": payload}}
  abbrev pub config_patch : String → Json F
  config_patch payload = one "data" (one "config.json" (text payload))

  -- Phase 2, for one role. That the patch fails is only logged.
  unfoldable pub patch_peers : Plan → Wiring → String × Json F → Calls F (Unit {0})
  unfolding config_payload lookup
  patch_peers p w (role, j) = do
    links ← lift (or_key_error role (lookup role w.links))
    let servers = server_count w.table role
    branch (null links.ips && (servers == 0 || servers == p.fanin role)) done (do
      payload ← lift (config_payload p role j (role_peers w role links))
      send on.server
            (patch_at (named config_map (config_name p.template.name role)) (config_patch payload))
          >>= λ answer. done)

  -- The part of `materialise` that makes no request: the checks and the plan.
  unfoldable pub make_plan : Json F → String → Fields F → Result Plan
  unfolding validate_template check_shape read_graph compute_fanin compute_resolved_x
  make_plan j source extra = Result.◌>>=◌ (validate_template fl on.wide on.order j) (λ valid.
      Result.◌>>=◌ (check_shape fl on.wide j) (λ c. Result.◌>>=◌ (read_graph fl c) (λ t.
        Result.◌>>=◌ (compute_fanin t) (λ fanin.
          Result.◌>>=◌ (compute_resolved_x fl on.order t) (λ resolved. ok (record {
            template = c;
            graph = t;
            source = source;
            extra = extra;
            fanin = fanin;
            resolved = resolved;
          }))))))

  -- The three phases.
  unfoldable pub carry_out : Plan → Calls F (Unit {0})
  unfolding create_role patch_peers read_endpoints for_each delete_managed shape_links
      resolve_peer_ips
  carry_out p = do
    for_each (create_role p) (entries p.template.roles)
    pods ← read_endpoints
    wiring ← lift (resolve_peer_ips pods p.graph)
    for_each (patch_peers p wiring) (entries p.template.roles)
    removed ← delete_managed on.server
    shape_links p.template.body

  -- `materialise`
  unfoldable pub materialise : Json F → String → Fields F → Calls F (Unit {0})
  unfolding make_plan carry_out
  materialise j source extra = lift (make_plan j source extra) >>= carry_out
