-- ===== src/Topology/Translate.antt =====
-- controller/materialiser.py, `translate_topology` on a document that has been checked, and
-- `validate_topology` as a whole. The translated dict is a record, with its fields as a document.
use cloud_native_emulator.Prelude.{
  ◌<>◌, String, true, false, Option, none, some, List, [], ◌∷◌, if◌then◌else◌, ℕ, ite, text_dec,
}
use cloud_native_emulator.Prelude.Dict.{Dict, lookup, insert}
use cloud_native_emulator.Prelude.Float.{Float}
use cloud_native_emulator.Prelude.Int.{ℤ, pos}
use cloud_native_emulator.Prelude.Result.{
  Result, ok, err, value_error, type_error, overflow_error, no_tier_name, ◌>>=◌,
}
use cloud_native_emulator.Json.{Json, Items, integer, text, no_items, entries}
use cloud_native_emulator.Merge.{get}
use cloud_native_emulator.Runner.{Phase}
use cloud_native_emulator.Scenario.{scenario_x_timeline}
use cloud_native_emulator.Template.{Edge, InputX, number, per_source}
use cloud_native_emulator.Topology.{
  Site, Link, Description, Load, AppEntry, AppEdge, Topology, roles_by_app,
}
use cloud_native_emulator.Topology.Names.{sanitize_name}
use cloud_native_emulator.Validation.{truthy, float_or_zero}

-- A role of the translated template; it is idle where it has no load.
pub record RoleDef (F : Type 0) : Type 0 where
  pub count : ℕ
  pub load : Option (Load F)
  pub tier : Option (Json F)
  pub node : Option (Json F)

pub record Translated (F : Type 0) : Type 0 where
  pub name : String
  pub x : InputX F
  pub roles : Dict (RoleDef F)
  pub edges : List Edge
  pub latency : Dict (Dict String)
  pub bandwidth : Dict (Dict String)

-- d.setdefault(a, {})[b] = v
abbrev pub set_in : String → String → String → Dict (Dict String) → Dict (Dict String)
unfolding lookup insert
set_in a b v d = elim (lookup a d) [
  | none ↦ insert a (insert b v []) d
  | some inner ↦ insert a (insert b v inner) d
]

-- The loop over app_edges.
unfoldable pub add_edges : Dict String → List AppEdge → List Edge
unfolding lookup
add_edges roles [] = []
add_edges roles (e ∷ rest) = elim (lookup e.source roles) [
  | none ↦ add_edges roles rest
  | some src ↦ elim (lookup e.target roles) [
    | none ↦ add_edges roles rest
    | some dst ↦ record { src = src; dst = dst } ∷ add_edges roles rest
  ]
]

module _ (fl : Float) where
  open fl use {F, of_int}

  -- A value where it counts as true.
  abbrev pub when_true : Option (Json F) → Option (Json F)
  when_true none = none
  when_true (some j) = if truthy fl j then some j else none

  -- The loop of `_app_loads`.
  unfoldable pub app_loads : Dict String → Dict (Load F) → List (AppEntry F) → Dict (Load F)
  unfolding lookup insert
  app_loads roles out [] = out
  app_loads roles out (a ∷ rest) = elim a.app_id [
    | none ↦ app_loads roles out rest
    | some id ↦ elim (lookup id roles) [
      | none ↦ app_loads roles out rest
      | some role ↦ elim a.load [
        | none ↦ app_loads roles out rest
        | some load ↦ app_loads roles (insert role load out) rest
      ]
    ]
  ]

  -- tier_name_by_id and tier_name_by_site
  abbrev pub tier_names :
      (Site F → String) → Dict (Option (Json F)) → List (Site F) → Dict (Option (Json F))
  unfolding insert
  tier_names key out [] = out
  tier_names key out (s ∷ rest) = tier_names key (insert (key s) s.tier_name out) rest

  abbrev pub name_at : Dict (Option (Json F)) → String → Option (Json F)
  unfolding lookup
  name_at names id = elim (lookup id names) [ none ↦ none | some name ↦ name ]

  -- tier_name_by_id.get(tid) if tid else None
  abbrev pub tier_of : Dict (Option (Json F)) → Option String → Option (Json F)
  unfolding name_at text_dec
  tier_of names none = none
  tier_of names (some id) = ite (text_dec id "") none (when_true (name_at names id))

  abbrev pub role_def : Dict (Option (Json F)) → Dict (Load F) → Description F → RoleDef F
  unfolding lookup sanitize_name tier_of
  role_def tiers loads d = record {
    count = d.replicas;
    load = lookup (sanitize_name d.deployment_name) loads;
    tier = tier_of tiers d.tier;
    node = when_true d.node;
  }

  -- The loop over the deployments.
  unfoldable pub add_roles :
      Dict (Option (Json F))
      → Dict (Load F)
      → Dict (RoleDef F)
      → List (Description F)
      → Dict (RoleDef F)
  unfolding insert sanitize_name role_def
  add_roles tiers loads out [] = out
  add_roles tiers loads out (d ∷ rest) =
      add_roles tiers loads (insert (sanitize_name d.deployment_name) (role_def tiers loads d) out)
        rest

  -- int(round(v)); `round` is round() of a float, none where it raises.
  abbrev pub rounded : (F → Option ℤ) → Json F → Result ℤ
  rounded round (Json.integer n) = ok n
  rounded round (Json.boolean b) = ok (pos (if b then 1 else 0))
  rounded round (Json.real v) = elim (round v) [ none ↦ err overflow_error | some n ↦ ok n ]
  rounded round j = err type_error

  -- latency and bandwidth
  abbrev pub Shaped : Type 0
  Shaped = Dict (Dict String) × Dict (Dict String)

  -- bandwidth.setdefault(src, {})[dst] = f"{bw}mbps"; `str` is str() of a value.
  abbrev pub cap :
      (Json F → String)
      → String
      → String
      → Option (Json F)
      → Dict (Dict String)
      → Dict (Dict String)
  unfolding set_in
  cap str a b none d = d
  cap str a b (some Json.null) d = d
  cap str a b (some bw) d = set_in a b (str bw <> "mbps") d

  -- The body of the loop over the links. (A tier's name that is true and no text is refused here;
  -- the program passes over two that are equal, and `validate_latency` refuses the others.)
  abbrev pub add_shape :
      (Json F → String)
      → (F → Option ℤ)
      → Link F
      → Option (Json F)
      → Option (Json F)
      → Shaped
      → Result Shaped
  unfolding cap
  add_shape str round l (some (Json.text a)) (some (Json.text b)) (latency, bandwidth) =
      if ite (text_dec a b) true false
      then ok (latency, bandwidth)
      else (rounded round l.one_way >>= λ ms.
          ok (set_in a b (str (integer ms) <> "ms") latency, cap str a b l.bandwidth bandwidth))
  add_shape str round l (some a) (some b) shaped = err (value_error no_tier_name)
  add_shape str round l a b shaped = ok shaped

  -- The loop over the links.
  unfoldable pub add_links :
      (Json F → String)
      → (F → Option ℤ)
      → Dict (Option (Json F))
      → Shaped
      → List (Link F)
      → Result Shaped
  unfolding name_at add_shape
  add_links str round tiers shaped [] = ok shaped
  add_links str round tiers shaped (l ∷ rest) = do
    next ←
        add_shape str round l (when_true (name_at tiers l.source))
          (when_true (name_at tiers l.target)) shaped
    add_links str round tiers next rest

  -- `_default_name`
  unfoldable pub default_name : List (Description F) → Json F
  default_name [] = text "topology"
  default_name (d ∷ rest) = elim (when_true d.namespace) [ none ↦ default_name rest | some ns ↦ ns ]

  abbrev pub or_value : Option (Json F) → Json F → Json F
  or_value none j = j
  or_value (some v) j = v

  abbrev pub as_str : (Json F → String) → Json F → String
  as_str str (Json.text s) = s
  as_str str j = str j

  -- `topology_name`
  unfoldable pub topology_name : (Json F → String) → Topology F → String
  unfolding get default_name sanitize_name
  topology_name str t =
      sanitize_name
        (as_str str (or_value (when_true (get "name" t.body)) (default_name t.deployments)))

  -- `_x_to_roles` of the baseline, which no check has read.
  unfoldable pub rekey_all : Dict String → Dict F → Dict (Json F) → Result (Dict F)
  unfolding lookup insert float_or_zero
  rekey_all roles out [] = ok out
  rekey_all roles out ((app, v) ∷ rest) = elim (lookup app roles) [
    | none ↦ rekey_all roles out rest
    | some role ↦ float_or_zero fl (some v) >>= λ n. rekey_all roles (insert role n out) rest
  ]

  abbrev pub baseline : Dict String → Option (Json F) → Result (InputX F)
  unfolding rekey_all
  baseline roles (some (Json.object x)) = rekey_all roles [] (entries x) >>= λ d. ok (per_source d)
  baseline roles x = float_or_zero fl x >>= λ n. ok (number n)

  abbrev pub phases_of : Option (Json F) → Items F
  phases_of (some (Json.array phases)) = phases
  phases_of j = no_items

  -- `_initial_x`
  abbrev pub initial_x : Dict String → Option (Json F) → List (Phase F) → Result (InputX F)
  unfolding baseline
  initial_x roles x (phase ∷ phases) = ok phase.x
  initial_x roles x [] = baseline roles x

  -- `translate_topology`
  unfoldable pub translate_topology :
      (Json F → String) → (F → Option ℤ) → Topology F → Result (Translated F)
  unfolding get app_loads add_roles add_links add_edges topology_name initial_x scenario_x_timeline
      sanitize_name tier_names
  translate_topology str round t = do
    shaped ← add_links str round (tier_names (λ s. s.site_id) [] t.sites) ([], []) t.links
    x ← initial_x (roles_by_app fl t.deployments t.apps) (get "x" t.body) (
        scenario_x_timeline fl (roles_by_app fl t.deployments t.apps)
          (phases_of (get "runtime_scenarios" t.body)))
    ok (record {
      name = topology_name str t;
      x = x;
      roles =
          add_roles (tier_names (λ s. s.tier_id) [] t.sites)
            (app_loads (roles_by_app fl t.deployments t.apps) [] t.apps) [] t.deployments;
      edges = add_edges (roles_by_app fl t.deployments t.apps) t.edges;
      latency = shaped.0;
      bandwidth = shaped.1;
    })
