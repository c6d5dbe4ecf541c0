-- ===== src/Peers/Links.antt =====
-- What the first loop of `_resolve_peer_ips` writes into `resolved` and `peer_names`.
use cloud_native_emulator.Prelude.{
  ◌≡◌, refl, ◌⊎◌, inl, inr, String, true, false, ◌||◌, some, List, [], ◌∷◌, map, arith, text_dec,
}
use cloud_native_emulator.Prelude.Dict.{lookup, insert, lookup-insert}
use cloud_native_emulator.Prelude.Result.{ok}
use cloud_native_emulator.Prelude.Sets
use cloud_native_emulator.Prelude.Sets.{contains}
use cloud_native_emulator.Peers.Resolve.{Cluster, Links, add_ips, add_services}
use cloud_native_emulator.Peers.Services.{role_of}

-- The addresses of some pods.
abbrev pub ips : List (String × String) → List String
ips pods = map (λ pod. pod.1) pods

contains-add_ips :
    (target : String) (links : Links) (pods : List (String × String)) (ip : String)
    → contains (add_ips target links pods).ips ip
      ≡ (contains links.ips ip || contains (ips pods) ip)
unfolding add_ips contains
contains-add_ips target links [] ip = ground arith
contains-add_ips target links ((pod, a) ∷ pods) ip = ground (
  arith,
  contains-add_ips target
      (record { ips = Sets.add links.ips a; names = insert a target links.names }) pods ip,
  Sets.contains-add links.ips a ip,
  Sets.contains_one a ip,
  text_dec a ip,
)

lookup-add_ips :
    (target : String) (links : Links) (pods : List (String × String)) (ip : String)
    → (contains (ips pods) ip ≡ true) × (lookup ip (add_ips target links pods).names ≡ some target)
      ⊎ (contains (ips pods) ip ≡ false)
        × (lookup ip (add_ips target links pods).names ≡ lookup ip links.names)
unfolding add_ips contains
lookup-add_ips target links [] ip = inr (refl, refl)
lookup-add_ips target links ((pod, a) ∷ pods) ip = ground (
  arith,
  lookup-add_ips target (record { ips = Sets.add links.ips a; names = insert a target links.names })
      pods ip,
  lookup-insert a ip target links.names,
  text_dec a ip,
)

module _ (c : Cluster) (name : String) (roles : List String) where
  -- Every address is of a pod behind one of the services, and its name is that service's role.
  abbrev pub AreNamed : (String → Type 0) → Links → Type 0
  AreNamed Svc links =
      (ip : String)
      → contains links.ips ip ≡ true
      → (svc : String) × Svc svc
        × (lookup ip links.names ≡ some (role_of name svc))
        × (contains (ips (c.target_pods svc)) ip ≡ true)

  add_ips-AreNamed :
      (Svc : String → Type 0) (links : Links) (svc : String)
      → Svc svc
      → AreNamed Svc links
      → AreNamed Svc (add_ips (role_of name svc) links (c.target_pods svc))
  add_ips-AreNamed Svc links svc s named ip m =
      elim (lookup-add_ips (role_of name svc) links (c.target_pods svc) ip) [
        | inl (new, found) ↦ (svc, s, found, new)
        | inr (old, same) ↦
            let (svc', s', found, at_svc) =
              named ip (
                ground (arith, contains-add_ips (role_of name svc) links (c.target_pods svc) ip)) in
            (svc', s', ground arith, at_svc)
      ]

  -- The links of a role whose services are all of roles.
  pub add_services_result :
      (Svc : String → Type 0) (svcs : List String) (links : Links)
      → ((svc : String)
          → contains svcs svc ≡ true
          → Svc svc × (contains roles (role_of name svc) ≡ true))
      → AreNamed Svc links
      → (links' : Links) × (add_services c name roles links svcs ≡ ok links')
        × AreNamed Svc links'
        × ((ip : String) → contains links.ips ip ≡ true → contains links'.ips ip ≡ true)
        × ((svc ip : String)
            → contains svcs svc ≡ true
            → contains (ips (c.target_pods svc)) ip ≡ true
            → contains links'.ips ip ≡ true)
  unfolding add_services contains
  add_services_result Svc [] links ok_svcs named = (links, refl, named, λ ip m. m, λ svc ip m. cc)
  add_services_result Svc (svc ∷ svcs) links ok_svcs named =
      let (s, role) = ok_svcs svc (ground (arith, text_dec svc svc)) in
      let mid = add_ips (role_of name svc) links (c.target_pods svc) in
      let (links', ran, named', keeps, holds) =
        add_services_result Svc svcs mid (λ q m. ok_svcs q (ground (arith, text_dec svc q)))
          (add_ips-AreNamed Svc links svc s named) in
      (
        links',
        rw role ran,
        named',
        λ ip m.
            keeps ip
              (ground (arith, contains-add_ips (role_of name svc) links (c.target_pods svc) ip)),
        λ q ip m at_q. elim (text_dec svc q) [
          | yes e ↦ keeps ip (
              ground (
                arith,
                contains-add_ips (role_of name svc) links (c.target_pods svc) ip,
                contains (ips (c.target_pods svc)) ip,
              ))
          | no n ↦ holds q ip (ground arith) at_q
        ],
      )
