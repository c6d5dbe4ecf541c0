-- ===== src/Peers/Resolve.antt =====
-- `_resolve_peer_ips`: the pod addresses that each role connects to, with the role behind each,
-- and the colouring over the source pods.
use cloud_native_emulator.Prelude.{String, List, [], ◌∷◌, map, if◌then◌else◌, null}
use cloud_native_emulator.Prelude.Dict.{Dict, keys, insert}
use cloud_native_emulator.Prelude.Result.{Result, ok, key_error, ◌>>=◌, ◌>>◌, guard}
use cloud_native_emulator.Prelude.Sets
use cloud_native_emulator.Prelude.Sets.{contains}
use cloud_native_emulator.Prelude.Sort.{sort_by}
use cloud_native_emulator.Template.{Template}
use cloud_native_emulator.Peers.Offsets.{Table, assign_roles, nothing_assigned}
use cloud_native_emulator.Peers.Services.{service, role_of, compute_peers}

-- What the waits for endpoints gave in this run, by service: as the pods of a source role, and as
-- the pods of a target. (`ip_cache` asks once for each target.)
pub record Cluster : Type 0 where
  pub source_pods : String → List (String × String)
  pub target_pods : String → List (String × String)

-- One role's entries of `resolved` and `peer_names`.
pub record Links : Type 0 where
  pub ips : List String
  pub names : Dict String

-- `for ip in ip_cache[svc]`
unfoldable pub add_ips : String → Links → List (String × String) → Links
add_ips target links [] = links
add_ips target links ((pod, ip) ∷ pods) =
    add_ips target (record { ips = Sets.add links.ips ip; names = insert ip target links.names })
      pods

-- `for svc in services`
unfoldable pub add_services : Cluster → String → List String → Links → List String → Result Links
unfolding add_ips role_of
add_services c name roles links [] = ok links
add_services c name roles links (svc ∷ svcs) = do
  guard (contains roles (role_of name svc)) (key_error (role_of name svc))
  add_services c name roles (add_ips (role_of name svc) links (c.target_pods svc)) svcs

abbrev pub no_links : Links
no_links = record { ips = []; names = [] }

-- The first loop: the links of each role, in the order of the roles.
unfoldable pub link_roles :
    Cluster → String → List String → (String → List String) → List String → Result (Dict Links)
unfolding add_services
link_roles c name roles intended [] = ok []
link_roles c name roles intended (r ∷ rs) = do
  links ← add_services c name roles no_links (intended r)
  rest ← link_roles c name roles intended rs
  ok ((r, links) ∷ rest)

-- `src_pods_by_role`, sorted by role, each role's pods sorted by name. A role with no peers is
-- not a source.
unfoldable pub source_roles :
    Cluster → String → (String → List String) → List String → Dict (List (String × String))
unfolding service
source_roles c name intended [] = []
source_roles c name intended (r ∷ rs) =
    if null (intended r)
    then source_roles c name intended rs
    else (r, sort_by (λ pod. pod.0) (c.source_pods (service name r)))
      ∷ source_roles c name intended rs

abbrev pub sources :
    Cluster → String → (String → List String) → List String → Dict (List (String × String))
sources c name intended rs = sort_by (λ e. e.0) (source_roles c name intended rs)

-- `target_roles`
abbrev pub targets : String → (String → List String) → String → List String
targets name intended r = map (role_of name) (intended r)

-- What the function returns; the server counts are read off the table by `server_count`.
pub record Wiring : Type 0 where
  pub links : Dict Links
  pub table : Table

module _ {F : Type 0} where
  unfoldable pub resolve_peer_ips : Cluster → Template F → Result Wiring
  unfolding link_roles source_roles compute_peers
  resolve_peer_ips c t = do
    intended ← compute_peers t
    links ← link_roles c t.name (keys t.roles) intended (keys t.roles)
    table ←
        assign_roles (targets t.name intended) nothing_assigned
          (sources c t.name intended (keys t.roles))
    ok (record { links = links; table = table })
