-- ===== src/Peers/Wired.antt =====
-- What `_resolve_peer_ips` as a whole promises, said in terms of the template's edges and the
-- pods that the cluster reported.
use cloud_native_emulator.Prelude.{
  ℕ, ◌<◌, ◌≡◌, ◌≢◌, ◌⊎◌, refl, sym, ap, ◌∙◌, subst, inl, inr, String, true, some, List, [], ◌∷◌,
  map, arith, text_dec, Bool-cases, null, eq-nil_of_null, All, text_le,
}
use cloud_native_emulator.Prelude.Dict.{Dict, keys, lookup, has_key}
use cloud_native_emulator.Prelude.Result.{ok}
use cloud_native_emulator.Prelude.Sets
use cloud_native_emulator.Prelude.Sets.{contains}
use cloud_native_emulator.Prelude.Sort.{sort_by, insert_by}
use cloud_native_emulator.Template.{Template, IsWellFormed}
use cloud_native_emulator.Peers.Offsets.{Table, server_count}
use cloud_native_emulator.Peers.Coloured.{AllNamed, assign_roles-IsColoured}
use cloud_native_emulator.Peers.Links.{ips, add_services_result}
use cloud_native_emulator.Peers.Resolve.{
  Cluster, Links, Wiring, add_services, link_roles, no_links, source_roles, sources, targets,
  resolve_peer_ips,
}
use cloud_native_emulator.Peers.Services.{
  service, role_of, role_of-service, has_edge, compute_peers-edges, AreServices,
}

module _ {ℓ} {A : Type ℓ} (key : A → String) where
  All-insert_by {κ} :
      (P : A → Type κ) (a : A) (xs : List A) → All P (insert_by key a xs) → P a × All P xs
  unfolding insert_by
  All-insert_by P a [] h = (h.0, tt)
  All-insert_by P a (x ∷ xs) h = elim (Bool-cases (text_le (key a) (key x))) [
    | inl before ↦ rw before at h
    | inr after ↦
        let rest : P x × All P (insert_by key a xs) = rw after at h in
        let (pa, pxs) = All-insert_by P a xs rest.1 in (pa, (rest.0, pxs))
  ]

  All-sort_by {κ} : (P : A → Type κ) (xs : List A) → All P (sort_by key xs) → All P xs
  unfolding sort_by
  All-sort_by P [] h = tt
  All-sort_by P (x ∷ xs) h =
      let (px, rest) = All-insert_by P x (sort_by key xs) h in (px, All-sort_by P xs rest)

contains-map-role_of :
    (name : String) (svcs : List String) (d : String)
    → contains svcs (service name d) ≡ true
    → contains (map (role_of name) svcs) d ≡ true
unfolding contains
contains-map-role_of name [] d m = cc
contains-map-role_of name (svc ∷ svcs) d m = ground (
  arith,
  contains-map-role_of name svcs d,
  text_dec svc (service name d),
  text_dec (role_of name svc) d,
  role_of-service name d,
)

-- The links of role `r`: its peers are the pods of the roles that it has an edge to, each named
-- by such a role that it backs.
pub record IsLinked {F : Type 0} (c : Cluster) (t : Template F) (r : String) (links : Links)
    : Type 0 where
  pub reached :
      (d ip : String)
      → has_edge t.edges r d ≡ true
      → contains (ips (c.target_pods (service t.name d))) ip ≡ true
      → contains links.ips ip ≡ true
  pub named :
      (ip : String)
      → contains links.ips ip ≡ true
      → (d : String) × (has_edge t.edges r d ≡ true)
        × (lookup ip links.names ≡ some d)
        × (contains (ips (c.target_pods (service t.name d))) ip ≡ true)

pub record IsWired {F : Type 0} (c : Cluster) (t : Template F) (w : Wiring) : Type 0 where
  -- Every role has its links.
  pub roles_linked : (keys w.links ≡ keys t.roles) × All (λ e. IsLinked c t e.0 e.1) w.links
  -- Two source pods with an edge to one role hold different offsets.
  pub apart :
      (r p r' p' : String) (o o' : ℕ) (d : String)
      → lookup p (w.table.offsets r) ≡ some o
      → lookup p' (w.table.offsets r') ≡ some o'
      → has_edge t.edges r d ≡ true
      → has_edge t.edges r' d ≡ true
      → ¬ ((r ≡ r') × (p ≡ p'))
      → o ≢ o'
  -- A role runs a server at every offset at which a pod connects to it.
  pub served :
      (r p : String) (o : ℕ) (d : String)
      → lookup p (w.table.offsets r) ≡ some o
      → has_edge t.edges r d ≡ true
      → o < server_count w.table d
  -- Every named pod of a role with an edge has an offset.
  pub offered :
      (r d : String)
      → contains (keys t.roles) r ≡ true
      → has_edge t.edges r d ≡ true
      → All
          (λ pod. (pod.0 ≡ "") ⊎ (has_key pod.0 (w.table.offsets r) ≡ true))
          (c.source_pods (service t.name r))

module _ {F : Type 0} (c : Cluster) (t : Template F) (intended : String → List String)
    (edges : (r d : String) → contains (intended r) (service t.name d) ≡ has_edge t.edges r d)
    (services : AreServices t.name (keys t.roles) intended) where
  -- Services of roles that `r` has an edge to.
  abbrev EdgeTo : String → String → Type 0
  EdgeTo r svc = (d : String) × (svc ≡ service t.name d) × (has_edge t.edges r d ≡ true)

  intended_edge :
      (r svc : String)
      → contains (intended r) svc ≡ true
      → EdgeTo r svc × (contains (keys t.roles) (role_of t.name svc) ≡ true)
  intended_edge r svc m =
      let (d, e, role) = services r svc m in
      (
        (d, e, sym (edges r d) ∙ subst (λ s. contains (intended r) s ≡ true) e m),
        rw (e, role_of-service) role,
      )

  add_services-IsLinked :
      (r : String)
      → (links : Links) × (add_services c t.name (keys t.roles) no_links (intended r) ≡ ok links)
        × IsLinked c t r links
  unfolding contains
  add_services-IsLinked r =
      let (links, ran, named, keeps, holds) =
        add_services_result c t.name (keys t.roles) (EdgeTo r) (intended r) no_links
          (intended_edge r) (λ ip m. cc) in
      (
        links,
        ran,
        record {
          reached = λ d ip edge m. holds (service t.name d) ip (edges r d ∙ edge) m;
          named = λ ip m.
              let (svc, (d, e, edge), found, at_svc) = named ip m in
              (
                d,
                edge,
                found ∙ ap some (ap (role_of t.name) e ∙ role_of-service t.name d),
                subst (λ s. contains (ips (c.target_pods s)) ip ≡ true) e at_svc,
              );
        },
      )

  link_roles-IsLinked :
      (rs : List String)
      → (links : Dict Links) × (link_roles c t.name (keys t.roles) intended rs ≡ ok links)
        × (keys links ≡ rs)
        × All (λ e. IsLinked c t e.0 e.1) links
  unfolding link_roles
  link_roles-IsLinked [] = ([], refl, refl, tt)
  link_roles-IsLinked (r ∷ rs) =
      let (one, ran, linked) = add_services-IsLinked r in
      let (rest, ran', same, all_linked) = link_roles-IsLinked rs in
      ((r, one) ∷ rest, rw (ran, ran'), ap (◌∷◌ r) same, (linked, all_linked))

  source_offered :
      (st : Table) (rs : List String) (r : String)
      → All (AllNamed st) (source_roles c t.name intended rs)
      → contains rs r ≡ true
      → intended r ≢ []
      → AllNamed st (r, c.source_pods (service t.name r))
  unfolding source_roles contains
  source_offered st [] r h m some_peer = cc
  source_offered st (q ∷ rs) r h m some_peer = elim (Bool-cases (null (intended q))) [
    | inl empty ↦
        source_offered st rs r (rw empty at h)
          (ground (arith, text_dec q r, eq-nil_of_null (intended q) empty, ap intended)) some_peer
    | inr full ↦
        let both : AllNamed st (q, sort_by (λ pod. pod.0) (c.source_pods (service t.name q)))
            × All (AllNamed st) (source_roles c t.name intended rs) =
          rw full at h in
        elim (text_dec q r) [
          | yes e ↦
              subst (λ s. AllNamed st (s, c.source_pods (service t.name s))) e
                (All-sort_by (λ pod. pod.0) _ (c.source_pods (service t.name q)) both.0)
          | no n ↦ source_offered st rs r both.1 (ground arith) some_peer
        ]
  ]

-- On a well-formed template, whatever the cluster reports, the resolution raises nothing. Each
-- role's peers are exactly the addresses of the pods of the roles that it has an edge to, and
-- each peer is labelled with such a role that it backs. Every named pod of a role with an edge
-- gets a port offset, two of them that reach one role never share it, and each role's server
-- count covers every offset that reaches it.
pub resolve_peer_ips-IsWired :
    {F : Type 0} (c : Cluster) (t : Template F)
    → IsWellFormed t
    → (w : Wiring) × (resolve_peer_ips c t ≡ ok w) × IsWired c t w
unfolding resolve_peer_ips contains
resolve_peer_ips-IsWired c t wf =
    let (intended, ran, once, edges, services) = compute_peers-edges t wf in
    let (links, ran', same, linked) =
      link_roles-IsLinked c t intended edges services (keys t.roles) in
    let to_target : (r d : String)
        → has_edge t.edges r d ≡ true
        → contains (targets t.name intended r) d ≡ true =
      λ r d edge. contains-map-role_of t.name (intended r) d (edges r d ∙ edge) in
    let (table, ran'', coloured) =
      assign_roles-IsColoured (targets t.name intended)
        (sources c t.name intended (keys t.roles)) in
    (
      record { links = links; table = table },
      rw (ran, ran', ran''),
      record {
        roles_linked = (same, linked);
        apart = λ r p r' p' o o' d h h' m m'.
            coloured.apart r p r' p' o o' d h h' (to_target r d m) (to_target r' d m');
        served = λ r p o d h m. coloured.served r p o d h (to_target r d m);
        offered = λ r d role m.
            source_offered c t intended edges services table (keys t.roles) r
              (All-sort_by (λ e. e.0) _ (source_roles c t.name intended (keys t.roles))
                coloured.named)
              role (Sets.contains-not-nil (intended r) (service t.name d) (edges r d ∙ m));
      },
    )
