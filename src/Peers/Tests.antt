-- ===== src/Peers/Tests.antt =====
-- The wiring of a small template, and its theorems there.
use cloud_native_emulator.Prelude.{
  ℕ, ◌≤◌, ◌<◌, ◌≡◌, ◌⊎◌, refl, String, ◌<>◌, List, [], ◌∷◌, text_dec, text_le, length, All,
  has_number, ite, ◌≢◌, ap, false, true,
}
use cloud_native_emulator.Prelude.Dict.{Dict, lookup, insert, keys}
use cloud_native_emulator.Prelude.Result.{ok}
use cloud_native_emulator.Prelude.Sets
use cloud_native_emulator.Prelude.Sets.{contains, IsNodup}
use cloud_native_emulator.Prelude.Sort.{sort_by}
use cloud_native_emulator.Samples.{diamond, diamond-IsWellFormed}
use cloud_native_emulator.Peers.Endpoints.{
  wait_for_endpoint_pods, wait_for_endpoint_pods_result, last_or,
}
use cloud_native_emulator.Peers.Offsets.{Table, server_count, assign, assign_roles}
use cloud_native_emulator.Peers.Resolve.{Cluster, Wiring, resolve_peer_ips}
use cloud_native_emulator.Peers.Services.{
  service, role_of, compute_peers, compute_peers-edges, AreServices, has_edge,
}
use cloud_native_emulator.Peers.Smallest.{IsGreedy, assign-IsGreedy}
use cloud_native_emulator.Peers.Wired.{IsWired, resolve_peer_ips-IsWired}

-- One pod behind each service, but two behind the api's.
abbrev cluster : Cluster
cluster = record {
  source_pods = λ svc. (svc <> "-b", "10.0.0.2") ∷ (svc <> "-a", "10.0.0.1") ∷ [];
  target_pods = λ svc. ("p", svc <> ".ip") ∷ [];
}

program : Unit {0}
unfolding resolve_peer_ips server_count contains Sets.add lookup insert sort_by text_dec text_le
    has_number service role_of assign_roles
program = tt

-- api's pods hold offsets 0 and 1 at db, so auth's pods get 2 and 3, although they are the first
-- that auth assigns; gateway's pods reach other roles and start at 0 again.
abbrev offsets_of : String → Wiring → Dict ℕ
offsets_of r w = w.table.offsets r

wiring : Wiring
unfolding program
wiring = elim (resolve_peer_ips cluster diamond) [
  | ok w ↦ w
  | _ ↦ record { links = []; table = record { used = λ _. []; offsets = λ _. [] } }
]

resolve_peer_ips-diamond :
    offsets_of "auth" wiring ≡ ("wt-diamond-auth-a", 2) ∷ ("wt-diamond-auth-b", 3) ∷ []
unfolding wiring
resolve_peer_ips-diamond = refl

resolve_peer_ips-IsWired_example :
    (w : Wiring) × (resolve_peer_ips cluster diamond ≡ ok w) × IsWired cluster diamond w
resolve_peer_ips-IsWired_example = resolve_peer_ips-IsWired cluster diamond diamond-IsWellFormed

compute_peers-edges_example :
    (peers : String → List String) × (compute_peers diamond ≡ ok peers)
    × ((r : String) → IsNodup (peers r))
    × ((r d : String) → contains (peers r) (service "diamond" d) ≡ has_edge diamond.edges r d)
    × AreServices "diamond" (keys diamond.roles) peers
compute_peers-edges_example = compute_peers-edges diamond diamond-IsWellFormed

-- The first poll finds no pod, the second finds one.
abbrev polls : List (List (String × String))
polls = [] ∷ (("p", "10.0.0.1") ∷ []) ∷ []

wait_for_endpoint_pods_result_example :
    (1 ≤ length (wait_for_endpoint_pods 1 polls))
    ⊎ (All (λ pods. length pods < 1) polls × (wait_for_endpoint_pods 1 polls ≡ last_or [] polls))
wait_for_endpoint_pods_result_example = wait_for_endpoint_pods_result 1 polls

-- Pod c of role api, where offsets 0 and 1 are in use at db.
abbrev started : Table
started = record { used = λ t. ite (text_dec t "db") (0 ∷ 1 ∷ []) []; offsets = λ r. [] }

abbrev pod_c : String
pod_c = "c"

pod_c_named : pod_c ≢ ""
unfolding text_dec
pod_c_named e = let clash : false ≡ true = ap (λ s. ite (text_dec s "") true false) e in cc

assign-IsGreedy_example :
    (st' : Table) × (assign ("db" ∷ []) "api" started pod_c ≡ ok st')
    × ((o : ℕ) × IsGreedy ("db" ∷ []) "api" pod_c started st' o)
assign-IsGreedy_example = assign-IsGreedy ("db" ∷ []) "api" started pod_c pod_c_named
