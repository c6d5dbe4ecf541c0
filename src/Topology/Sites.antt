-- ===== src/Topology/Sites.antt =====
-- controller/materialiser.py, `_ready_nodes_for_tier`, `check_sites` and `materialise_topology`,
-- over the API server of Cluster. A name of a node is a text.
use cloud_native_emulator.Prelude.{
  ℕ, String, Bool, true, false, ◌&&◌, Option, none, some, List, [], ◌∷◌, if◌then◌else◌, foldl, null,
  length, ◌==◌,
}
use cloud_native_emulator.Prelude.Dict.{keys}
use cloud_native_emulator.Prelude.Float.{Float}
use cloud_native_emulator.Prelude.Int.{ℤ}
use cloud_native_emulator.Prelude.Result
use cloud_native_emulator.Prelude.Result.{Result, ok, err, type_error, value_error, tiers_not_ready}
use cloud_native_emulator.Prelude.Sets
use cloud_native_emulator.Prelude.Sets.{contains}
use cloud_native_emulator.Prelude.Sort.{sort}
use cloud_native_emulator.Json
use cloud_native_emulator.Json.{Json, Items, Fields, object, text, no_items, no_fields, field}
use cloud_native_emulator.Merge.{get}
use cloud_native_emulator.Cluster.{
  node, selected, get_at, Server, Response, Calls, ◌>>=◌, lift, send,
}
use cloud_native_emulator.Cluster.Answers.{items_of, get_in, is_text, role_text}
use cloud_native_emulator.Cluster.Materialise.{Setting, materialise}
use cloud_native_emulator.Template.{InputX}
use cloud_native_emulator.Topology.{Topology, Description, as_fields}
use cloud_native_emulator.Topology.Document.{document_of, validate_topology}
use cloud_native_emulator.Topology.Translate.{translate_topology}
use cloud_native_emulator.Validation.{edge_items}

abbrev pub tier_label : String
tier_label = "topology.tier_id"

abbrev pub topology_annotation : String
topology_annotation = "emulator.local/topology"

-- A tier with its ready nodes.
pub record Readiness : Type 0 where
  pub tier_id : String
  pub ready_nodes : List String

abbrev pub given_tier : Option String → List String → List String
given_tier none out = out
given_tier (some id) out = id ∷ out

-- `required`, of the deployments
abbrev pub required_tiers : {F : Type 0} → List (Description F) → List String
required_tiers [] = []
required_tiers (d ∷ ds) = given_tier d.tier (required_tiers ds)

-- The body of the loop of `check_sites` that collects `unsatisfied`.
unfoldable pub unsatisfied : List String → List Readiness → List String
unfolding contains
unsatisfied required [] = []
unsatisfied required (r ∷ rest) =
    let more = unsatisfied required rest in
    if contains required r.tier_id && null r.ready_nodes then r.tier_id ∷ more else more

abbrev pub refuse_unless_none : List String → Result (Unit {0})
refuse_unless_none [] = ok tt
refuse_unless_none (id ∷ ids) = err (value_error (tiers_not_ready (id ∷ ids)))

module _ (fl : Float) where
  open fl use {F}

  -- c.get("type") == "Ready" and c.get("status") == "True"
  abbrev pub is_ready_condition : Json F → Result Bool
  is_ready_condition (Json.object c) = ok (
      is_text "Ready" (role_text "type" (object c))
      && is_text "True" (role_text "status" (object c)))
  is_ready_condition j = err type_error

  unfoldable pub any_ready : Items F → Result Bool
  any_ready Json.no_items = ok false
  any_ready (Json.item j js) =
      Result.◌>>=◌ (is_ready_condition j) (λ b. if b then ok true else any_ready js)

  abbrev pub text_or_empty : Option String → String
  text_or_empty none = ""
  text_or_empty (some s) = s

  -- The body of the loop over the nodes: its name, if it is ready.
  unfoldable pub ready_name : Json F → Result (Option String)
  unfolding get any_ready get_in
  ready_name j = Result.◌>>=◌ (get_in "status" j) (λ status.
      Result.◌>>=◌ (as_fields fl status) (λ fields.
        Result.◌>>=◌ (edge_items fl (get "conditions" fields)) (λ conds.
          Result.◌>>=◌ (any_ready conds) (λ ready.
            if ready
            then Result.◌>>=◌ (get_in "metadata" j)
                (λ meta. ok (some (text_or_empty (role_text "name" meta))))
            else ok none))))

  abbrev pub with_name : Option String → List String → List String
  with_name none names = names
  with_name (some n) names = n ∷ names

  unfoldable pub ready_names : List (Json F) → Result (List String)
  unfolding ready_name
  ready_names [] = ok []
  ready_names (j ∷ js) =
      Result.◌>>=◌ (ready_name j) (λ n. Result.◌>>=◌ (ready_names js) (λ ns. ok (with_name n ns)))

  -- What `_ready_nodes_for_tier` makes of the answer.
  unfoldable pub nodes_in : Response F → Result (List String)
  unfolding items_of ready_names
  nodes_in answer =
      if answer.status == 200 then Result.◌>>=◌ (items_of answer.body) ready_names else ok []

  -- `_ready_nodes_for_tier`
  unfoldable pub ready_nodes_for_tier : Server F → String → Calls F (List String)
  unfolding nodes_in
  ready_nodes_for_tier server tier =
      send server (get_at (selected node tier_label tier)) >>= λ answer. lift (nodes_in answer)

  -- The loop of `check_sites` over the tiers.
  unfoldable pub read_tiers : Server F → List String → Calls F (List Readiness)
  unfolding ready_nodes_for_tier
  read_tiers server [] = lift (ok [])
  read_tiers server (id ∷ ids) = ready_nodes_for_tier server id >>= λ nodes.
      read_tiers server ids >>= λ rest.
      lift (ok (record { tier_id = id; ready_nodes = nodes } ∷ rest))

  -- sorted({s["tier_id"] for s in doc["sites"]})
  abbrev pub sorted_tiers : Topology F → List String
  unfolding Sets.add sort
  sorted_tiers u = sort (foldl (λ ids s. Sets.add ids s.tier_id) [] u.sites)

  -- The end of `check_sites`.
  abbrev pub refuse_unready : Topology F → List Readiness → Result (Unit {0})
  unfolding unsatisfied
  refuse_unready u report = refuse_unless_none (unsatisfied (required_tiers u.deployments) report)

  -- The summary, without the peers and the scenarios.
  pub record Summary : Type 0 where
    pub name : String
    pub sites : List Readiness
    pub deployments : List String
    pub network_links : ℕ
    pub app_edges : ℕ
    pub system_x_start : InputX F

  -- `materialise_topology`; `compact` is json.dumps without spaces.
  unfoldable pub materialise_topology :
      Setting fl
      → (str compact : Json F → String) → (F → Option ℤ)
      → Json F
      → String
      → Calls F Summary
  unfolding validate_topology translate_topology read_tiers sorted_tiers refuse_unready materialise
      sort
  materialise_topology on str compact round j source = do
    u ← lift (validate_topology fl on.order str round j)
    report ← read_tiers on.server (sorted_tiers u)
    ready ← lift (refuse_unready u report)
    t ← lift (translate_topology fl str round u)
    made ←
        materialise fl on (object (document_of t)) source
          (field topology_annotation (text (compact j)) no_fields)
    lift (
        ok (record {
          name = t.name;
          sites = report;
          deployments = sort (keys t.roles);
          network_links = length u.links;
          app_edges = length t.edges;
          system_x_start = t.x;
        }))
