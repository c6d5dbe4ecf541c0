-- ===== src/Topology/Roles.antt =====
-- The roles and the edges of a translated topology.
use cloud_native_emulator.Prelude.{
  ◌≤◌, ◌≡◌, refl, String, true, Option, none, some, List, [], ◌∷◌, All, arith, text_dec, ite, inl,
  inr, ◌∙◌, subst, sym, Option-cases,
}
use mathlib.Core.Logic.{if_pos, if_neg}
use cloud_native_emulator.Prelude.Dict.{Dict, lookup, insert, keys}
use cloud_native_emulator.Prelude.Float.{Float}
use cloud_native_emulator.Prelude.Sets.{contains}
use cloud_native_emulator.Json.{Json}
use cloud_native_emulator.Scenario.{App, Deployment, role_by_deployment, roles_of_apps}
use cloud_native_emulator.Template.{Edge}
use cloud_native_emulator.Topology.{Description, AppEdge, Load}
use cloud_native_emulator.Topology.Names.{sanitize_name}
use cloud_native_emulator.Topology.Translate.{RoleDef, role_def, add_roles, add_edges}
use cloud_native_emulator.Validation.Parts.{IsJoined}

abbrev OptionAll : {V : Type 0} → (V → Type 0) → Option V → Type 0
OptionAll P none = Unit
OptionAll P (some v) = P v

module _ {V : Type 0} (P : V → Type 0) where
  pub All-insert :
      (k : String) (v : V) (d : Dict V) → P v → All (λ e. P e.1) d → All (λ e. P e.1) (insert k v d)
  unfolding insert
  All-insert k v [] new old = (new, tt)
  All-insert k v ((j, w) ∷ d) new old =
      elim (text_dec j k)
        as (λ same. All (λ e. P e.1) (ite same ((j, v) ∷ d) ((j, w) ∷ insert k v d))) [
          | yes e ↦ (new, old.1)
          | no n ↦ (old.0, All-insert k v d new old.1)
        ]

  pub lookup-All :
      (k : String) (v : V) (d : Dict V) → All (λ e. P e.1) d → lookup k d ≡ some v → P v
  unfolding lookup
  lookup-All k v [] h at = cc
  lookup-All k v ((j, w) ∷ d) h at = elim (text_dec j k) [
    | yes e ↦
        let same : some w ≡ some v = rw (if_pos (text_dec j k) e (some w) (lookup k d)) at at in
        subst (OptionAll P) same h.0
    | no n ↦ lookup-All k v d h.1 (rw (if_neg (text_dec j k) n (some w) (lookup k d)) at at)
  ]

module _ {V : Type 0} where
  pub contains-insert :
      (k j : String) (v : V) (d : Dict V)
      → contains (keys (insert k v d)) j ≡ ite (text_dec k j) true (contains (keys d) j)
  unfolding insert contains
  contains-insert k j v [] = refl
  contains-insert k j v ((i, w) ∷ d) =
      ground (arith, contains-insert k j v d, text_dec i j, text_dec i k, text_dec k j)

  pub contains-inserted :
      (k : String) (v : V) (d : Dict V) → contains (keys (insert k v d)) k ≡ true
  contains-inserted k v d = contains-insert k k v d ∙ if_pos (text_dec k k) refl true _

  pub contains-kept :
      (k j : String) (v : V) (d : Dict V)
      → contains (keys d) j ≡ true
      → contains (keys (insert k v d)) j ≡ true
  contains-kept k j v d h = contains-insert k j v d ∙ ground (arith, h, text_dec k j)

-- A name that the roles have.
abbrev pub IsIn : List String → String → Type 0
IsIn names s = contains names s ≡ true

module _ (names : List String) where
  pub role_by_deployment-IsIn :
      (out : Dict String) (ds : List Deployment)
      → All (λ e. IsIn names e.1) out
      → All (λ d. (n : String) → d.deployment_name ≡ some n → IsIn names (sanitize_name n)) ds
      → All (λ e. IsIn names e.1) (role_by_deployment sanitize_name out ds)
  unfolding role_by_deployment
  role_by_deployment-IsIn out [] held named = held
  role_by_deployment-IsIn out (d ∷ ds) held named = elim (Option-cases d.deployment_id) [
    | inl missing ↦ rw missing (role_by_deployment-IsIn out ds held named.1)
    | inr (id, at) ↦ elim (Option-cases d.deployment_name) [
      | inl missing ↦ rw (at, missing) (role_by_deployment-IsIn out ds held named.1)
      | inr (n, at') ↦
          rw (at, at')
            (role_by_deployment-IsIn (insert id (sanitize_name n) out) ds
              (All-insert (IsIn names) id (sanitize_name n) out (named.0 n at') held) named.1)
    ]
  ]

  pub roles_of_apps-IsIn :
      (by_deployment out : Dict String) (apps : List App)
      → All (λ e. IsIn names e.1) by_deployment
      → All (λ e. IsIn names e.1) out
      → All (λ e. IsIn names e.1) (roles_of_apps by_deployment out apps)
  unfolding roles_of_apps
  roles_of_apps-IsIn by out [] known held = held
  roles_of_apps-IsIn by out (a ∷ apps) known held = elim (Option-cases a.app_id) [
    | inl missing ↦ rw missing (roles_of_apps-IsIn by out apps known held)
    | inr (id, at) ↦ elim (Option-cases a.deployment_ref) [
      | inl missing ↦ rw (at, missing) (roles_of_apps-IsIn by out apps known held)
      | inr (ref, at') ↦ elim (Option-cases (lookup ref by)) [
        | inl missing ↦ rw (at, at', missing) (roles_of_apps-IsIn by out apps known held)
        | inr (role, found) ↦
            rw (at, at', found)
              (roles_of_apps-IsIn by (insert id role out) apps known (
                All-insert (IsIn names) id role out
                  (lookup-All (IsIn names) ref role by known found) held))
      ]
    ]
  ]

  pub add_edges-IsJoined :
      (roles : Dict String) (es : List AppEdge)
      → All (λ e. IsIn names e.1) roles
      → All (IsJoined names) (add_edges roles es)
  unfolding add_edges
  add_edges-IsJoined roles [] known = tt
  add_edges-IsJoined roles (e ∷ rest) known =
      let more = add_edges-IsJoined roles rest known in
      let joined : (es : List Edge)
          → add_edges roles (e ∷ rest) ≡ es
          → All (IsJoined names) es
          → All (IsJoined names) (add_edges roles (e ∷ rest)) =
        λ es same h. subst (All (IsJoined names)) (sym same) h in
      elim (Option-cases (lookup e.source roles)) [
        | inl missing ↦ joined (add_edges roles rest) (rw (missing, add_edges) refl) more
        | inr (src, at) ↦ elim (Option-cases (lookup e.target roles)) [
          | inl missing ↦ joined (add_edges roles rest) (rw (at, missing, add_edges) refl) more
          | inr (dst, at') ↦
              joined (record { src = src; dst = dst } ∷ add_edges roles rest)
                (rw (at, at', add_edges) refl)
                (
                  (
                    lookup-All (IsIn names) e.source src roles known at,
                    lookup-All (IsIn names) e.target dst roles known at',
                  ),
                  more,
                )
        ]
      ]

module _ (fl : Float) where
  open fl use {F}

  module _ (tiers : Dict (Option (Json F))) (loads : Dict (Load F)) where
    abbrev put : Description F → Dict (RoleDef F) → Dict (RoleDef F)
    put d out = insert (sanitize_name d.deployment_name) (role_def fl tiers loads d) out

    add_roles-kept :
        (r : String) (ds : List (Description F)) (out : Dict (RoleDef F))
        → IsIn (keys out) r
        → IsIn (keys (add_roles fl tiers loads out ds)) r
    unfolding add_roles
    add_roles-kept r [] out h = h
    add_roles-kept r (d ∷ ds) out h =
        add_roles-kept r ds (put d out)
          (contains-kept (sanitize_name d.deployment_name) r (role_def fl tiers loads d) out h)

    pub add_roles-named :
        (ds : List (Description F)) (out : Dict (RoleDef F))
        → All
            (λ d. IsIn (keys (add_roles fl tiers loads out ds)) (sanitize_name d.deployment_name))
            ds
    unfolding add_roles
    add_roles-named [] out = tt
    add_roles-named (d ∷ ds) out = (
      add_roles-kept (sanitize_name d.deployment_name) ds (put d out)
          (contains-inserted (sanitize_name d.deployment_name) (role_def fl tiers loads d) out),
      add_roles-named ds (put d out),
    )

    pub add_roles-counted :
        (ds : List (Description F)) (out : Dict (RoleDef F))
        → All (λ e. 1 ≤ e.1.count) out
        → All (λ d. 1 ≤ d.replicas) ds
        → All (λ e. 1 ≤ e.1.count) (add_roles fl tiers loads out ds)
    unfolding add_roles
    add_roles-counted [] out held positive = held
    add_roles-counted (d ∷ ds) out held positive =
        add_roles-counted ds (put d out)
          (All-insert (λ r. 1 ≤ r.count) (sanitize_name d.deployment_name)
            (role_def fl tiers loads d) out positive.0 held)
          positive.1
