-- ===== src/Topology/Deployments.antt =====
-- What the checks have made sure of a topology's deployments.
use cloud_native_emulator.Prelude.{
  ℕ, ◌≤◌, ◌≡◌, refl, inl, inr, String, false, Option, none, some, List, All, arith, map, null,
  Option-cases,
}
use cloud_native_emulator.Prelude.Float.{Float}
use cloud_native_emulator.Prelude.Result.{
  Result, ok, err, Error, >>=-eq-ok, >>-eq-ok, ok_subst, value_error, replicas_not_positive,
  no_deployment_id, no_deployment_name, no_site_for_tier, no_sites, no_deployments,
}
use cloud_native_emulator.Json
use cloud_native_emulator.Json.{
  Json, Items, Fields, entries, integer, object, text, array, item, field, no_fields,
}
use cloud_native_emulator.Merge.{get}
use cloud_native_emulator.Scenario.{source_app_ids, validate_scenarios}
use cloud_native_emulator.Topology.{
  Description, Topology, read_all, some_items, replicas_given, fields_or_none, optional_member,
  some_text, read_description, read_site, read_link, check_topology, check_places, check_traffic,
  Places, roles_by_app,
}
use cloud_native_emulator.Validation.{positive_int, edge_items}
use cloud_native_emulator.Validation.Parts.{positive_int-le}

module _ (fl : Float) where
  open fl use {F}

  -- What has been checked of the deployments.
  read_all-All :
      {V : Type 0} (P : V → Type 0) (read : Json F → Result V) (js : Items F) (vs : List V)
      → ((j : Json F) (v : V) → read j ≡ ok v → P v)
      → read_all read js ≡ ok vs
      → All P vs
  unfolding read_all
  read_all-All P read Json.no_items vs f h = ok_subst (All P) h tt
  read_all-All P read (Json.item j js) vs f h =
      let (v, one, after) = >>=-eq-ok (read j) _ h in
      let (us, more, last) = >>=-eq-ok (read_all read js) _ after in
      ok_subst (All P) last (f j v one, read_all-All P read js us f more)

  read_all-some :
      {V : Type 0} (read : Json F → Result V) (j : Json F) (js : Items F) (vs : List V)
      → read_all read (item j js) ≡ ok vs
      → null vs ≡ false
  unfolding read_all
  read_all-some read j js vs h =
      let (v, one, after) = >>=-eq-ok (read j) _ h in
      let (us, more, last) = >>=-eq-ok (read_all read js) _ after in
      ok_subst (λ ws. null ws ≡ false) last refl

  read_all-null :
      {V : Type 0} (why : Error) (read : Json F → Result V) (j : Option (Json F)) (js : Items F)
      (vs : List V)
      → some_items why j ≡ ok js
      → read_all read js ≡ ok vs
      → null vs ≡ false
  read_all-null why read (some (Json.array (Json.item i is))) js vs given h =
      ok_subst (λ ks. read_all read ks ≡ ok vs → null vs ≡ false) given (read_all-some read i is vs)
        h
  read_all-null why read (some (Json.array Json.no_items)) js vs given h = cc
  read_all-null why read none js vs given h = cc
  read_all-null why read (some j) js vs given h = cc

  replicas_given-le :
      (id : String) (j : Option (Json F)) (n : ℕ) → replicas_given id j ≡ ok n → 1 ≤ n
  replicas_given-le id none n h = ok_subst (λ m. 1 ≤ m) h (omega arith)
  replicas_given-le id (some j) n h = elim (Option-cases (positive_int (some j))) [
    | inl missing ↦
        let none_left : err (value_error (replicas_not_positive id)) ≡ ok n =
          rw (missing, replicas_given) at h in
        cc
    | inr (m, at) ↦
        let same : ok m ≡ ok n = rw (at, replicas_given) at h in
        ok_subst (λ k. 1 ≤ k) same (positive_int-le (some j) m at)
  ]

  read_description-le :
      (tiers : List String) (j : Json F) (d : Description F)
      → read_description fl tiers j ≡ ok d
      → 1 ≤ d.replicas
  unfolding read_description
  read_description-le tiers (Json.object o) d h =
      let (id, _, after) =
        >>=-eq-ok (some_text (value_error no_deployment_id) (get "deployment_id" o)) _ h in
      let (name, _, after') =
        >>=-eq-ok (some_text (value_error (no_deployment_name id)) (get "deployment_name" o)) _
          after in
      let (selector, _, after'') = >>=-eq-ok (fields_or_none fl (get "node_selector" o)) _ after' in
      let (tier, _, more) =
        >>=-eq-ok
          (optional_member tiers (value_error (no_site_for_tier id))
            (get "topology.tier_id" selector))
          _ after'' in
      let (n, counted, last) = >>=-eq-ok (replicas_given id (get "replicas" o)) _ more in
      ok_subst (λ (e : Description F). 1 ≤ e.replicas) last
        (replicas_given-le id (get "replicas" o) n counted)
  read_description-le tiers j d h = cc

  abbrev ArePositive : List (Description F) → Type 0
  ArePositive ds = All (λ (d : Description F). 1 ≤ d.replicas) ds × (null ds ≡ false)

  check_places-deployments :
      (d : Fields F) (places : Places F)
      → check_places fl d ≡ ok places
      → ArePositive places.deployments
  unfolding check_places
  check_places-deployments d places h =
      let (site_items, _, h1) = >>=-eq-ok (some_items (value_error no_sites) (get "sites" d)) _ h in
      let (sites, _, h2) = >>=-eq-ok (read_all read_site site_items) _ h1 in
      let (link_items, _, h3) = >>=-eq-ok (edge_items fl (get "network_links" d)) _ h2 in
      let (links, _, h4) =
        >>=-eq-ok (read_all (read_link (map (λ s. s.site_id) sites)) link_items) _ h3 in
      let (items, given, h5) =
        >>=-eq-ok (some_items (value_error no_deployments) (get "k8s_app_description" d)) _ h4 in
      let describe = read_description fl (map (λ s. s.tier_id) sites) in
      let (ds, described, last) = >>=-eq-ok (read_all describe items) _ h5 in
      ok_subst (λ (p : Places F). ArePositive p.deployments) last
        (
          read_all-All (λ e. 1 ≤ e.replicas) describe items ds
              (read_description-le (map (λ s. s.tier_id) sites)) described,
          read_all-null (value_error no_deployments) describe (get "k8s_app_description" d) items ds
              given described,
        )

  pub check_topology-deployments :
      (j : Json F) (t : Topology F)
      → check_topology fl j ≡ ok t
      → All (λ d. 1 ≤ d.replicas) t.deployments × (null t.deployments ≡ false)
  unfolding check_topology
  check_topology-deployments (Json.object d) t h =
      let (places, placed, after) = >>=-eq-ok (check_places fl d) _ h in
      let (traffic, _, after') = >>=-eq-ok (check_traffic fl places.deployments d) _ after in
      let last =
        >>-eq-ok
          (validate_scenarios fl
            (source_app_ids (map (λ e. e.target) traffic.edges)
              (roles_by_app fl places.deployments traffic.apps))
            (get "runtime_scenarios" d))
          _ after' in
      ok_subst (λ (u : Topology F). ArePositive u.deployments) last
        (check_places-deployments d places placed)
  check_topology-deployments j t h = cc
