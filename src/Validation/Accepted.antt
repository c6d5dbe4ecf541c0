-- ===== src/Validation/Accepted.antt =====
-- A document that `validate_template` accepts has a role graph that resolves.
use cloud_native_emulator.Prelude.{ℕ, ◌≤◌, ◌≡◌, String, Bool, List, All}
use cloud_native_emulator.Prelude.Dict.{Dict, keys}
use cloud_native_emulator.Prelude.Float.{Float}
use cloud_native_emulator.Prelude.Result.{ok, >>=-eq-ok, ok_subst}
use cloud_native_emulator.Prelude.Sets.{IsNodup}
use cloud_native_emulator.Json.{Json, entries}
use cloud_native_emulator.Links.{validate_latency}
use cloud_native_emulator.Merge.{get}
use cloud_native_emulator.Propagation.{compute_resolved_x}
use cloud_native_emulator.Propagation.Correct.{IsAcyclic, compute_resolved_x-Solves}
use cloud_native_emulator.Propagation.Invariant.{IsSetOrder}
use cloud_native_emulator.Propagation.Solution.{Solves}
use cloud_native_emulator.Template.{Template, IsWellFormed}
use cloud_native_emulator.Validation.{
  Checked, check_shape, name_of, roles_of, check_roles, edge_items, check_edges, read_graph, read_x,
  read_roles, or_null, validate_template, wanted,
}
use cloud_native_emulator.Validation.Parts.{
  IsJoined, check_roles-keys, check_edges-IsJoined, read_roles-keys,
}

-- What the checks of shape have made sure of.
pub record IsChecked {F : Type 0} (c : Checked F) : Type 0 where
  pub named : keys c.counts ≡ keys (entries c.roles)
  pub counted : All (λ e. 1 ≤ e.1) c.counts
  pub joined : All (IsJoined (keys (entries c.roles))) c.edges

module _ (fl : Float) (wide : ℕ → Bool) where
  open fl use {F}

  check_shape-IsChecked : (j : Json F) (c : Checked F) → check_shape fl wide j ≡ ok c → IsChecked c
  unfolding check_shape
  check_shape-IsChecked (Json.object d) c h =
      let (name, _, after) = >>=-eq-ok (name_of fl wide (get "name" d)) _ h in
      let (roles, _, after') = >>=-eq-ok (roles_of fl (get "roles" d)) _ after in
      let (counts, checked, others) = >>=-eq-ok (check_roles (entries roles)) _ after' in
      let (items, _, more) = >>=-eq-ok (edge_items fl (get "edges" d)) _ others in
      let (edges, joined, last) = >>=-eq-ok (check_edges (keys (entries roles)) items) _ more in
      let (names, counted) = check_roles-keys (entries roles) counts checked in
      ok_subst IsChecked last (record {
        named = names;
        counted = counted;
        joined = check_edges-IsJoined (keys (entries roles)) items edges joined;
      })
  check_shape-IsChecked j c h = cc

  read_graph-IsWellFormed :
      (c : Checked F) (t : Template F)
      → IsChecked c
      → IsNodup (keys (entries c.roles))
      → read_graph fl c ≡ ok t
      → IsWellFormed t
  unfolding read_graph
  read_graph-IsWellFormed c t checked distinct h =
      let (x, _, after) = >>=-eq-ok (read_x fl (wanted fl c) (get "x" c.body)) _ h in
      let (roles, read, last) = >>=-eq-ok (read_roles fl c.counts (entries c.roles)) _ after in
      let (names, pods) =
        read_roles-keys fl c.counts (entries c.roles) roles read checked.named checked.counted in
      ok_subst IsWellFormed last
        (record { distinct = rw names distinct; joined = rw names checked.joined; counted = pods })

  -- Where validate_template accepts a document whose role names are distinct, as those of a
  -- parsed object are, its role graph can be read, every edge joins two of its roles, every role
  -- has a pod, the graph has no cycle, and `_compute_resolved_x` gives each role the x that the
  -- equations ask: it does not raise when `materialise` calls it.
  pub validate_template-resolves :
      (order : List String → List String)
      → IsSetOrder order
      → (j : Json F)
      → ((c : Checked F) → check_shape fl wide j ≡ ok c → IsNodup (keys (entries c.roles)))
      → validate_template fl wide order j ≡ ok tt
      → (c : Checked F) × (t : Template F) × (resolved : Dict F) × (check_shape fl wide j ≡ ok c)
        × (read_graph fl c ≡ ok t)
        × (compute_resolved_x fl order t ≡ ok resolved)
        × IsWellFormed t
        × IsAcyclic t
        × Solves fl t resolved
  unfolding validate_template
  validate_template-resolves order lawful j distinct h =
      let (c, shape, after) = >>=-eq-ok (check_shape fl wide j) _ h in
      let (pairs, _, after') =
        >>=-eq-ok (validate_latency fl (or_null fl (get "latency" c.body))) _ after in
      let (t, graph, solved) = >>=-eq-ok (read_graph fl c) _ after' in
      let (resolved, ran, _) = >>=-eq-ok (compute_resolved_x fl order t) _ solved in
      let wf =
        read_graph-IsWellFormed c t (check_shape-IsChecked j c shape) (distinct c shape) graph in
      let (acyclic, solves) = compute_resolved_x-Solves fl order lawful t wf resolved ran in
      (c, t, resolved, shape, graph, ran, wf, acyclic, solves)
