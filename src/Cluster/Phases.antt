-- ===== src/Cluster/Phases.antt =====
-- The requests of each phase of `materialise`.
use cloud_native_emulator.Prelude.{String, List, []}
use cloud_native_emulator.Prelude.Float.{Float}
use cloud_native_emulator.Prelude.Result.{ok}
use cloud_native_emulator.Json.{Json, Fields, entries}
use cloud_native_emulator.Peers.Resolve.{Wiring, resolve_peer_ips}
use cloud_native_emulator.Peers.Services.{service}
use cloud_native_emulator.Shaping.{Command, apply_links}
use cloud_native_emulator.Cluster.{
  Kind, config_map, network_chaos, node, endpoints, all_of, named, Request, get_at, delete_at,
  post_at, patch_at, run_on, Response, History, Server, Calls, ◌>>=◌, ◌>>◌, lift, send, for_each,
  kind_in, name_in, kind_of, apply, after_post, patch_existing, unpin_node,
}
use cloud_native_emulator.Cluster.Answers.{
  items_of, managed_items, delete_chaos, delete_managed, object_name,
}
use cloud_native_emulator.Cluster.Materialise.{
  Setting, Plan, unpin_if_free, create_role, role_documents, patch_peers, run_script, shape_links,
  now, read_service, read_endpoints,
}
use cloud_native_emulator.Cluster.Nodes.{list_nodes, tiers_of}
use cloud_native_emulator.Cluster.Sending.{
  Adds, Adds-lift, Adds-send, Adds->>=, Adds->>, Adds-lift->>=, Adds-ask, Adds-for_each,
  Adds-branch, Adds-done, Adds-rescue,
}

-- A request of the first phase: an object is created or updated.
abbrev pub IsCreate : {F : Type 0} → Request F → Type 0
IsCreate (post_at a j) = Unit
IsCreate (patch_at a j) = Unit
IsCreate r = ⊥

-- A request after it: Endpoints, nodes or leftover NetworkChaos objects are read, a ConfigMap is
-- patched, a leftover NetworkChaos is deleted, or a script is run on a node.
abbrev pub IsLate : {F : Type 0} → Request F → Type 0
IsLate (patch_at (named config_map n) j) = Unit
IsLate (get_at (named endpoints n)) = Unit
IsLate (get_at (all_of node)) = Unit
IsLate (get_at (all_of network_chaos)) = Unit
IsLate (delete_at (named network_chaos n)) = Unit
IsLate (run_on vm script) = Unit
IsLate r = ⊥

module _ {F : Type 0} (server : Server F) where
  patch_existing-IsCreate :
      (kind : Kind) (name : String) (j : Json F) → Adds IsCreate (patch_existing server kind name j)
  unfolding patch_existing
  patch_existing-IsCreate kind name j =
      Adds->>= IsCreate (send server (patch_at (named kind name) j)) _
        (Adds-send IsCreate server (patch_at (named kind name) j) tt)
        (λ answer. Adds-lift IsCreate _)

  pub after_post-IsCreate :
      (kind : Kind) (name : String) (j : Json F) (answer : Response F)
      → Adds IsCreate (after_post server kind name j answer)
  unfolding after_post
  after_post-IsCreate kind name j answer =
      Adds-branch IsCreate _ _ _ (Adds-done IsCreate)
        (Adds-branch IsCreate _ _ _ (patch_existing-IsCreate kind name j) (Adds-lift IsCreate _))

  pub apply-IsCreate : (j : Json F) → Adds IsCreate (apply server j)
  unfolding apply
  apply-IsCreate j = Adds-lift->>= IsCreate (kind_in j) _ λ kind_name e.
      Adds-lift->>= IsCreate (name_in j) _ λ name e'.
        Adds-lift->>= IsCreate (kind_of kind_name) _ λ kind e''.
          Adds-ask IsCreate server (post_at (all_of kind) j) _ tt
            (λ before. after_post-IsCreate kind name j (server before (post_at (all_of kind) j)))

  pub unpin_node-IsCreate : (name : String) → Adds IsCreate (unpin_node server name)
  unfolding unpin_node
  unpin_node-IsCreate name = Adds-ask IsCreate server _ _ tt (λ before. Adds-done IsCreate)

  delete_chaos-IsLate : (j : Json F) → Adds IsLate (delete_chaos server j)
  delete_chaos-IsLate j = Adds-lift->>= IsLate (object_name j) _ λ name e.
      Adds-ask IsLate server (delete_at (named network_chaos name)) _ tt
        (λ before. Adds-done IsLate)

  pub delete_managed-IsLate : Adds IsLate (delete_managed server)
  unfolding delete_managed
  delete_managed-IsLate = Adds-rescue IsLate _ _ (
      Adds-ask IsLate server (get_at (all_of network_chaos)) _ tt λ before.
        Adds-branch IsLate _ _ _
          (Adds-lift->>= IsLate (items_of _) _ λ listed e.
            Adds-lift->>= IsLate (managed_items listed) _ λ mine e'.
              Adds->> IsLate (for_each (delete_chaos server) mine) _
                (Adds-for_each IsLate (delete_chaos server) mine delete_chaos-IsLate)
                (Adds-lift IsLate _))
          (Adds-lift IsLate _))

  pub list_nodes-IsLate : Adds IsLate (list_nodes server)
  unfolding list_nodes
  list_nodes-IsLate = Adds-ask IsLate server (get_at (all_of node)) _ tt λ before.
      Adds-branch IsLate _ _ _
        (Adds-lift->>= IsLate (items_of _) _
          λ listed e. Adds-lift->>= IsLate (tiers_of [] listed) _ λ tiers e'. Adds-lift IsLate _)
        (Adds-lift IsLate _)

module _ (fl : Float) (on : Setting fl) where
  open fl use {F}

  pub unpin_if_free-IsCreate :
      (p : Plan fl on) (role : String) (j : Json F) → Adds IsCreate (unpin_if_free fl on p role j)
  unfolding unpin_if_free
  unpin_if_free-IsCreate p role j =
      Adds-branch IsCreate _ _ _ (Adds-done IsCreate)
        (unpin_node-IsCreate on.server (service p.template.name role))

  pub create_role-IsCreate :
      (p : Plan fl on) (e : String × Json F) → Adds IsCreate (create_role fl on p e)
  unfolding create_role
  create_role-IsCreate p (role, j) =
      Adds-lift->>= IsCreate (role_documents fl on p role j) _ λ docs e.
        Adds->> IsCreate (for_each (apply on.server) docs) _
          (Adds-for_each IsCreate (apply on.server) docs (apply-IsCreate on.server))
          (unpin_if_free-IsCreate p role j)

  patch_peers-IsLate :
      (p : Plan fl on) (w : Wiring) (e : String × Json F) → Adds IsLate (patch_peers fl on p w e)
  unfolding patch_peers
  patch_peers-IsLate p w (role, j) = Adds-lift->>= IsLate _ _ λ links e.
      Adds-branch IsLate _ _ _ (Adds-done IsLate) (
        Adds-lift->>= IsLate _ _
          λ payload e'. Adds-ask IsLate on.server _ _ tt (λ before. Adds-done IsLate))

  run_script-IsLate : (e : String × List Command) → Adds IsLate (run_script fl on e)
  run_script-IsLate (vm, script) =
      Adds-ask IsLate on.server (run_on vm script) _ tt (λ before. Adds-done IsLate)

  now-IsLate : {V : Type 0} (f : History F → V) → Adds IsLate (now fl on f)
  unfolding now lift
  now-IsLate f h = Adds-lift IsLate (ok (f h)) h

  read_endpoints-IsLate : Adds IsLate (read_endpoints fl on)
  unfolding read_endpoints
  read_endpoints-IsLate = Adds->>= IsLate (now fl on on.polled) _ (now-IsLate on.polled) λ services.
      Adds->> IsLate (for_each (read_service fl on) services) _
        (Adds-for_each IsLate (read_service fl on) services (λ s.
          Adds-ask IsLate on.server (get_at (named endpoints s)) _ tt (λ before. Adds-done IsLate)))
        (now-IsLate on.pods)

  shape_links-IsLate : (body : Fields F) → Adds IsLate (shape_links fl on body)
  unfolding shape_links
  shape_links-IsLate body = Adds-rescue IsLate _ _ (
      Adds-lift->>= IsLate _ _ λ latency e. Adds-lift->>= IsLate _ _ λ bandwidth e'.
        Adds->>= IsLate (list_nodes on.server) _ (list_nodes-IsLate on.server) λ nodes.
          Adds-branch IsLate _ _ _ (Adds-done IsLate) (
            Adds-lift->>= IsLate (apply_links fl on.pair_order latency bandwidth nodes) _
              λ scripts e''. Adds-for_each IsLate (run_script fl on) scripts run_script-IsLate))

  -- The phases after the first.
  abbrev pub finish : Plan fl on → Calls F (Unit {0})
  finish p = read_endpoints fl on >>= λ pods. lift (resolve_peer_ips pods p.graph) >>= λ wiring.
      for_each (patch_peers fl on p wiring) (entries p.template.roles)
      >> (delete_managed on.server >>= λ removed. shape_links fl on p.template.body)

  pub finish-IsLate : (p : Plan fl on) → Adds IsLate (finish p)
  finish-IsLate p = Adds->>= IsLate (read_endpoints fl on) _ read_endpoints-IsLate λ pods.
      Adds-lift->>= IsLate (resolve_peer_ips pods p.graph) _ λ wiring e.
        Adds->> IsLate (for_each (patch_peers fl on p wiring) (entries p.template.roles)) _
          (Adds-for_each IsLate (patch_peers fl on p wiring) (entries p.template.roles)
            (patch_peers-IsLate p wiring))
          (Adds->>= IsLate (delete_managed on.server) _ (delete_managed-IsLate on.server)
            (λ removed. shape_links-IsLate p.template.body))
