-- ===== src/Topology/Made.antt =====
-- The document of a translated topology passes the checks of `validate_template`.
use cloud_native_emulator.Prelude.{
  ℕ, ◌≤◌, ◌≡◌, refl, ◌⊎◌, inl, inr, ap, String, Bool, false, Option, none, some, List, [], ◌∷◌, All,
  arith, text_dec, null,
}
use cloud_native_emulator.Prelude.Dict.{Dict, keys}
use cloud_native_emulator.Prelude.Float.{Float}
use cloud_native_emulator.Prelude.Int.{pos}
use cloud_native_emulator.Prelude.Result.{ok, >>=-eq-ok}
use cloud_native_emulator.Json.{Json, entries, integer, object, text, array, field, no_fields}
use cloud_native_emulator.Links.{is_empty, validate_latency, validate_bandwidth}
use cloud_native_emulator.Merge.{get}
use cloud_native_emulator.Template.{Axis, Edge}
use cloud_native_emulator.Topology.{Load}
use cloud_native_emulator.Topology.Translate.{RoleDef, Translated}
use cloud_native_emulator.Topology.Document.{
  axis_or_idle, optional_field, role_object, roles_json, edges_json, counts_of, document_of,
  checked_of, check_translated,
}
use cloud_native_emulator.Topology.Names.{IsName}
use cloud_native_emulator.Validation.{
  positive_int, count_found, check_axis, check_tier, check_node, check_role, check_roles,
  check_edge, check_edges, check_shape, validate_template, or_null, roles_of, edge_items,
}
use cloud_native_emulator.Validation.Parts.{IsJoined}

-- Absent, or a text that is not empty.
abbrev pub IsText : {F : Type 0} → Option (Json F) → Type 0
IsText j = (j ≡ none) ⊎ ((s : String) × (j ≡ some (text s)) × (is_empty s ≡ false))

-- A role with a pod, whose tier and node are texts.
abbrev pub IsSound : {F : Type 0} → RoleDef F → Type 0
IsSound r = (1 ≤ r.count) × IsText r.tier × IsText r.node

module _ (F : Type 0) where
  check_axis-made :
      (r ax : String) (part : Load F → Axis F) (l : Option (Load F))
      → check_axis r ax (some (axis_or_idle part l)) ≡ ok tt
  unfolding get text_dec
  check_axis-made r ax part none = refl
  check_axis-made r ax part (some load) = refl

  check_tier-made : (r : String) (j : Option (Json F)) → IsText j → check_tier r j ≡ ok tt
  check_tier-made r j (inl absent) = rw absent refl
  check_tier-made r j (inr (s, at, full)) = rw (at, full) refl

  check_node-made : (r : String) (j : Option (Json F)) → IsText j → check_node r j ≡ ok tt
  check_node-made r j (inl absent) = rw absent refl
  check_node-made r j (inr (s, at, full)) = rw at refl

  count-made :
      (r : String) (n : ℕ)
      → 1 ≤ n
      → count_found r (positive_int {F = F} (some (integer (pos n)))) ≡ ok n
  count-made r n h = ground (arith, h)

  tier-at :
      (tier pinned : Option (Json F))
      → get "tier" (optional_field "tier" tier (optional_field "node" pinned no_fields)) ≡ tier
  unfolding get text_dec
  tier-at none none = refl
  tier-at none (some n) = refl
  tier-at (some t) pinned = refl

  node-at :
      (tier pinned : Option (Json F))
      → get "node" (optional_field "tier" tier (optional_field "node" pinned no_fields)) ≡ pinned
  unfolding get text_dec
  node-at none none = refl
  node-at none (some n) = refl
  node-at (some t) none = refl
  node-at (some t) (some n) = refl

  check_role-made :
      (r : String) (d : RoleDef F) → IsSound d → check_role r (role_object d) ≡ ok d.count
  unfolding check_role get text_dec
  check_role-made r d (counted, tiered, noded) =
      rw
        (
          count-made r d.count counted,
          check_axis-made r "cpu" (λ l. l.cpu) d.load,
          check_axis-made r "ram" (λ l. l.ram) d.load,
          check_axis-made r "net" (λ l. l.net) d.load,
          tier-at d.tier d.node,
          node-at d.tier d.node,
          check_tier-made r d.tier tiered,
        )
        (rw (check_node-made r d.node noded) refl)

  keys-roles_json : (rs : Dict (RoleDef F)) → keys (entries (roles_json rs)) ≡ keys rs
  keys-roles_json [] = refl
  keys-roles_json ((r, d) ∷ rs) = ap (λ (ks : List String). r ∷ ks) (keys-roles_json rs)

  check_roles-made :
      (rs : Dict (RoleDef F))
      → All (λ e. IsSound e.1) rs
      → check_roles (entries (roles_json rs)) ≡ ok (counts_of rs)
  unfolding check_roles
  check_roles-made [] h = refl
  check_roles-made ((r, d) ∷ rs) (one, more) =
      rw (check_role-made r d one, check_roles-made rs more) refl

  check_edge-made :
      (names : List String) (e : Edge)
      → IsJoined names e
      → check_edge {F = F} names
          (object (field "from" (text e.src) (field "to" (text e.dst) no_fields)))
        ≡ ok e
  unfolding check_edge get text_dec
  check_edge-made names e (from, to) = rw (from, to) refl

  check_edges-made :
      (names : List String) (es : List Edge)
      → All (IsJoined names) es
      → check_edges {F = F} names (edges_json es) ≡ ok es
  unfolding check_edges
  check_edges-made names [] h = refl
  check_edges-made names (e ∷ es) (one, more) =
      rw (check_edge-made names e one, check_edges-made names es more) refl

module _ (fl : Float) where
  open fl use {F}

  edge_items-made :
      (es : List Edge) → edge_items fl (some (array (edges_json es))) ≡ ok (edges_json es)
  edge_items-made [] = refl
  edge_items-made (e ∷ es) = refl

  roles_of-made :
      (rs : Dict (RoleDef F))
      → null rs ≡ false
      → roles_of fl (some (object (roles_json rs))) ≡ ok (roles_json rs)
  roles_of-made [] h = cc
  roles_of-made (e ∷ rs) h = refl

  pub document-shape :
      (wide : ℕ → Bool) (t : Translated F)
      → IsName wide t.name
      → null t.roles ≡ false
      → All (λ e. IsSound e.1) t.roles
      → All (IsJoined (keys t.roles)) t.edges
      → check_shape fl wide (object (document_of t)) ≡ ok (checked_of t)
  unfolding check_shape get text_dec
  document-shape wide t named some_role sound joined =
      rw
        (
          named.0,
          named.1,
          roles_of-made t.roles some_role,
          check_roles-made F t.roles sound,
          edge_items-made t.edges,
          keys-roles_json F t.roles,
          check_edges-made F (keys t.roles) t.edges joined,
        )
        refl

  -- The rest of `validate_template`, which `validate_topology` has run too.
  pub document-accepted :
      (wide : ℕ → Bool) (order : List String → List String) (t : Translated F)
      → check_shape fl wide (object (document_of t)) ≡ ok (checked_of t)
      → check_translated fl order t ≡ ok tt
      → validate_template fl wide order (object (document_of t)) ≡ ok tt
  unfolding validate_template check_translated
  document-accepted wide order t shape h =
      let (delays, delayed, after) =
        >>=-eq-ok (validate_latency fl (or_null fl (get "latency" (document_of t)))) _ h in
      let (rates, rated, more) =
        >>=-eq-ok (validate_bandwidth fl (or_null fl (get "bandwidth" (document_of t)))) _ after in
      rw (shape, delayed) more
