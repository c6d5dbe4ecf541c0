-- ===== src/Topology/Accepted.antt =====
-- A topology that `validate_topology` accepts becomes a template that `validate_template` accepts.
use cloud_native_emulator.Prelude.{
  ℕ, ◌≤◌, ◌≡◌, refl, ap, sym, ◌∙◌, subst, String, Bool, false, Option, none, some, List, [], ◌∷◌,
  All, map, null,
}
use cloud_native_emulator.Prelude.Dict.{Dict, keys}
use cloud_native_emulator.Prelude.Float.{Float}
use cloud_native_emulator.Prelude.Int.{ℤ}
use cloud_native_emulator.Prelude.Result.{ok, >>=-eq-ok, ok_subst, ok_inj}
use cloud_native_emulator.Prelude.Sets.{contains}
use cloud_native_emulator.Json.{Json, object}
use cloud_native_emulator.Merge.{get}
use cloud_native_emulator.Scenario.{Deployment, scenario_x_timeline}
use cloud_native_emulator.Topology.{
  Description, AppEntry, Load, Topology, check_topology, roles_by_app,
}
use cloud_native_emulator.Topology.Names.{sanitize_name, IsName, sanitize_name-IsName}
use cloud_native_emulator.Topology.Translate.{
  RoleDef, Translated, add_links, add_roles, app_loads, tier_names, topology_name, as_str, or_value,
  when_true, default_name, initial_x, phases_of, translate_topology,
}
use cloud_native_emulator.Topology.Document.{document_of, check_translated, validate_topology}
use cloud_native_emulator.Topology.Deployments.{check_topology-deployments}
use cloud_native_emulator.Topology.Made.{IsText, IsSound, document-shape, document-accepted}
use cloud_native_emulator.Topology.Roles.{
  IsIn, role_by_deployment-IsIn, roles_of_apps-IsIn, add_edges-IsJoined, add_roles-named,
  add_roles-counted,
}
use cloud_native_emulator.Validation.{validate_template}
use cloud_native_emulator.Validation.Parts.{IsJoined}

abbrev OptionIn : List String → Option String → Type 0
OptionIn names none = Unit
OptionIn names (some s) = IsIn names (sanitize_name s)

null-IsIn : {V : Type 0} (d : Dict V) (s : String) → IsIn (keys d) s → null d ≡ false
unfolding contains
null-IsIn [] s h = cc
null-IsIn (e ∷ d) s h = refl

module _ (fl : Float) where
  open fl use {F}

  named_all :
      (names : List String) (ds : List (Description F))
      → All (λ d. IsIn names (sanitize_name d.deployment_name)) ds
      → All
          (λ (d : Deployment).
            (n : String) → d.deployment_name ≡ some n → IsIn names (sanitize_name n))
          (map
            (λ d. record {
              deployment_id = some d.deployment_id;
              deployment_name = some d.deployment_name;
            })
            ds)
  named_all names [] h = tt
  named_all names (d ∷ ds) (one, more) =
      ((λ n e. subst (OptionIn names) e one), named_all names ds more)

  roles_by_app-IsIn :
      (names : List String) (ds : List (Description F)) (apps : List (AppEntry F))
      → All (λ d. IsIn names (sanitize_name d.deployment_name)) ds
      → All (λ e. IsIn names e.1) (roles_by_app fl ds apps)
  roles_by_app-IsIn names ds apps h =
      roles_of_apps-IsIn names _ [] _ (role_by_deployment-IsIn names [] _ tt (named_all names ds h))
        tt

  -- What a translated topology holds.
  abbrev Parts : (ℕ → Bool) → Translated F → Type 0
  Parts wide t =
      IsName wide t.name
      × (null t.roles ≡ false)
      × All (λ e. 1 ≤ e.1.count) t.roles
      × All (IsJoined (keys t.roles)) t.edges

  some-role :
      (tiers : Dict (Option (Json F))) (loads : Dict (Load F)) (ds : List (Description F))
      → null ds ≡ false
      → null (add_roles fl tiers loads [] ds) ≡ false
  some-role tiers loads [] h = cc
  some-role tiers loads (d ∷ ds) h =
      null-IsIn (add_roles fl tiers loads [] (d ∷ ds)) (sanitize_name d.deployment_name)
        (add_roles-named fl tiers loads (d ∷ ds) []).0

  translate_topology-Parts :
      (str : Json F → String) (round : F → Option ℤ) (wide : ℕ → Bool) (u : Topology F)
      (t : Translated F)
      → All (λ d. 1 ≤ d.replicas) u.deployments
      → null u.deployments ≡ false
      → translate_topology fl str round u ≡ ok t
      → Parts wide t
  unfolding translate_topology topology_name
  translate_topology-Parts str round wide u t positive some_one h =
      let by_app = roles_by_app fl u.deployments u.apps in
      let tiers = tier_names fl (λ s. s.tier_id) [] u.sites in
      let loads = app_loads fl by_app [] u.apps in
      let roles = add_roles fl tiers loads [] u.deployments in
      let (shaped, _, h1) =
        >>=-eq-ok
          (add_links fl str round (tier_names fl (λ s. s.site_id) [] u.sites) ([], []) u.links) _
          h in
      let (x, _, last) =
        >>=-eq-ok
          (initial_x fl by_app (get "x" u.body)
            (scenario_x_timeline fl by_app (phases_of fl (get "runtime_scenarios" u.body))))
          _ h1 in
      ok_subst (Parts wide) last (
        sanitize_name-IsName wide (
            as_str fl str
              (or_value fl (when_true fl (get "name" u.body)) (default_name fl u.deployments))),
        some-role tiers loads u.deployments some_one,
        add_roles-counted fl tiers loads u.deployments [] tt positive,
        add_edges-IsJoined (keys roles) by_app u.edges (
            roles_by_app-IsIn (keys roles) u.deployments u.apps
              (add_roles-named fl tiers loads u.deployments [])),
      )

  both-IsSound :
      (rs : Dict (RoleDef F))
      → All (λ e. 1 ≤ e.1.count) rs
      → All (λ e. IsText e.1.tier × IsText e.1.node) rs
      → All (λ e. IsSound e.1) rs
  both-IsSound [] h g = tt
  both-IsSound (e ∷ rs) (one, more) (named, rest) =
      ((one, named.0, named.1), both-IsSound rs more rest)

  -- A document that `validate_topology` accepts is translated, and, where the tiers and the nodes
  -- of the translated roles are absent or texts, `validate_template` accepts the translated
  -- template: the roles, the edges, the name, the latency and the graph all pass, so that
  -- `materialise` does not refuse it.
  pub validate_topology-accepted :
      (str : Json F → String) (round : F → Option ℤ) (wide : ℕ → Bool)
      (order : List String → List String) (j : Json F) (u : Topology F) (t : Translated F)
      → validate_topology fl order str round j ≡ ok u
      → translate_topology fl str round u ≡ ok t
      → All (λ e. IsText e.1.tier × IsText e.1.node) t.roles
      → validate_template fl wide order (object (document_of t)) ≡ ok tt
  unfolding validate_topology
  validate_topology-accepted str round wide order j u t h translated texts =
      let (v, checked, after) = >>=-eq-ok (check_topology fl j) _ h in
      let (s, made, more) = >>=-eq-ok (translate_topology fl str round v) _ after in
      let (done, resolved, last) = >>=-eq-ok (check_translated fl order s) _ more in
      let same : v ≡ u = ok_inj last in
      let same_made : s ≡ t =
        ok_inj (sym made ∙ ap (λ w. translate_topology fl str round w) same ∙ translated) in
      let again : check_translated fl order t ≡ ok tt =
        subst (λ w. check_translated fl order w ≡ ok tt) same_made resolved in
      let (positive, some_one) =
        subst
          (λ (w : Topology F).
            All (λ d. 1 ≤ d.replicas) w.deployments × (null w.deployments ≡ false))
          same (check_topology-deployments fl j v checked) in
      let (named, some_roles, counted, joined) =
        translate_topology-Parts str round wide u t positive some_one translated in
      document-accepted fl wide order t
        (document-shape fl wide t named some_roles (both-IsSound t.roles counted texts) joined)
        again
