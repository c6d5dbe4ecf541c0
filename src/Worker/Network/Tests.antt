-- ===== src/Worker/Network/Tests.antt =====
-- A pod of the role auth and one of the role db, configured.
use cloud_native_emulator.Prelude.{
  ℕ, ◌≡◌, refl, sym, ◌∙◌, subst, String, ◌<>◌, none, [], ◌∷◌, text_dec, text_le, codes, has_number,
  All, length, true,
}
use cloud_native_emulator.Prelude.Dict.{lookup, insert}
use cloud_native_emulator.Prelude.Int.{ℤ, pos, ◌+ℤ◌, ◌*ℤ◌}
use cloud_native_emulator.Prelude.Result.{ok, err, ok_inj}
use cloud_native_emulator.Prelude.Sets
use cloud_native_emulator.Prelude.Sets.{contains}
use cloud_native_emulator.Prelude.Sort.{sort_by}
use cloud_native_emulator.Json.{Json, Fields, integer, object, no_fields, field}
use cloud_native_emulator.Merge.{get}
use cloud_native_emulator.Samples.{whole, axis, diamond, diamond-IsWellFormed}
use cloud_native_emulator.Validation.{float_of}
use cloud_native_emulator.Peers.Offsets.{server_count, assign_roles}
use cloud_native_emulator.Peers.Resolve.{Cluster, Links, Wiring, resolve_peer_ips}
use cloud_native_emulator.Peers.Services.{service, role_of, has_edge}
use cloud_native_emulator.Peers.Wired.{IsWired, resolve_peer_ips-IsWired}
use cloud_native_emulator.Cluster.{item_at}
use cloud_native_emulator.Cluster.Materialise.{role_peers}
use cloud_native_emulator.Cluster.Roles.{role_config}
use cloud_native_emulator.Worker.Config.{linear, is_idle, read_setup, all_texts}
use cloud_native_emulator.Worker.Network.{
  Worker, Environment, configure, spawn_pool, start_network, start_loads,
}
use cloud_native_emulator.Worker.Network.Reach.{HasAxes, IsServed, clients-IsServed}
use cloud_native_emulator.Worker.Network.Started.{Configured, configure-Configured}

abbrev cluster : Cluster
cluster = record {
  source_pods = λ svc. (svc <> "-x", "10.1.0.2") ∷ [];
  target_pods = λ svc. (svc <> "-x", svc <> ".ip") ∷ [];
}

program : Unit {0}
unfolding resolve_peer_ips server_count contains Sets.add lookup insert sort_by text_dec text_le
    has_number service role_of assign_roles get float_of item_at role_config linear is_idle
    read_setup all_texts codes ◌+ℤ◌ ◌*ℤ◌ configure spawn_pool start_network start_loads has_edge
program = tt

wiring : Wiring
unfolding program
wiring = elim (resolve_peer_ips cluster diamond) [
  | ok w ↦ w
  | _ ↦ record { links = []; table = record { used = λ _. []; offsets = λ _. [] } }
]

wiring-IsWired : IsWired cluster diamond wiring
unfolding wiring
wiring-IsWired =
    let (w, ran, wired) = resolve_peer_ips-IsWired cluster diamond diamond-IsWellFormed in
    let resolved : resolve_peer_ips cluster diamond ≡ ok wiring = refl in
    subst (IsWired cluster diamond) (ok_inj (sym ran ∙ resolved)) wired

abbrev env : Environment whole
env = record {
  ceil_div = λ a b. pos 1;
  round_div = λ a b. pos 50;
  share = λ mbps n. mbps;
  port_count = 8;
  cores = 2;
  slice_ms = 0;
  int_text = λ s. none;
}

abbrev formula : ℕ → ℕ → Json ℤ
formula a b = object (field "a" (integer (pos a)) (field "b" (integer (pos b)) no_fields))

abbrev auth : Fields ℤ
auth = field "cpu" (formula 1 1) (field "ram" (formula 1 1) (field "net" (formula 2 0) no_fields))

abbrev db : Fields ℤ
db = field "cpu" (formula 0 0) (field "ram" (formula 0 0) (field "net" (formula 0 0) no_fields))

abbrev to_db : Links
to_db = record { ips = "wt-diamond-db.ip" ∷ []; names = ("wt-diamond-db.ip", "db") ∷ [] }

abbrev nowhere : Links
nowhere = record { ips = []; names = [] }

config_of : Fields ℤ → String → Links → Fields ℤ
unfolding wiring
config_of role name links =
    elim (role_config whole (object role) (role_peers wiring name links) (pos 10)) [
      | ok config ↦ config
      | err why ↦ no_fields
    ]

abbrev unused : Worker ℤ
unused = record {
  next = 0;
  procs = [];
  servers = [];
  stress = [];
  stress_mc = pos 0;
  stress_cmd = none;
  clients = [];
  ram = none;
  names = no_fields;
  setup = none;
}

auth-HasAxes : HasAxes whole auth
unfolding program
auth-HasAxes = record {
  cpu = axis 1 1;
  ram = axis 1 1;
  net = axis 2 0;
  at_cpu = refl;
  at_ram = refl;
  at_net = refl;
}

db-HasAxes : HasAxes whole db
unfolding program
db-HasAxes = record {
  cpu = axis 0 0;
  ram = axis 0 0;
  net = axis 0 0;
  at_cpu = refl;
  at_ram = refl;
  at_net = refl;
}

configure-Configured_example :
    Configured whole env
      (read_setup whole env.int_text "wt-diamond-auth-x" (object (config_of auth "auth" to_db)))
      true
      unused
      (configure whole env "wt-diamond-auth-x" (object (config_of auth "auth" to_db)) true unused)
configure-Configured_example =
    configure-Configured whole env "wt-diamond-auth-x" (object (config_of auth "auth" to_db)) true
      unused

clients-IsServed_example :
    All
      (IsServed
        (configure whole env "wt-diamond-db-x" (object (config_of db "db" nowhere)) true unused).0)
      (configure whole env "wt-diamond-auth-x"
        (object (config_of auth "auth" to_db))
        true
        unused).0.clients
unfolding program wiring config_of
clients-IsServed_example =
    clients-IsServed whole env cluster diamond wiring wiring-IsWired "auth" "db" "wt-diamond-auth-x"
      "wt-diamond-db-x" 1 refl refl to_db nowhere auth db auth-HasAxes db-HasAxes (pos 10) (pos 10)
      (config_of auth "auth" to_db) (config_of db "db" nowhere) refl refl true true unused unused

-- One client runs, so that there is something to serve.
one_client :
    length
      (configure whole env "wt-diamond-auth-x"
        (object (config_of auth "auth" to_db))
        true
        unused).0.clients
    ≡ 1
unfolding program wiring config_of
one_client = refl
