-- ===== src/Worker/Network/Started.antt =====
-- What a pod runs once it has been configured.
use cloud_native_emulator.Prelude.{
  ℕ, ◌+◌, ◌-◌, ◌≤◌, ◌≡◌, ◌∙◌, refl, String, Bool, ◌&&◌, Option, none, some, arith, List, [], ◌∷◌,
  if◌then◌else◌, leb, ltb, inl, inr, Bool-cases, length, length-append, foldl, subst, sym, ap,
}
use cloud_native_emulator.Prelude.Float.{Float}
use cloud_native_emulator.Prelude.Int.{ℤ}
use cloud_native_emulator.Prelude.Result.{Result, ok, err}
use cloud_native_emulator.Json.{Json}
use cloud_native_emulator.Worker.Servers.{server_on}
use cloud_native_emulator.Worker.Cpu.{
  remove_proc, Cpu, Command, start_cpu, stop_cpu, cpu_cmd, spawn_stress, no_less_than_zero,
}
use cloud_native_emulator.Worker.Config.{Setup, read_setup}
use cloud_native_emulator.Worker.Network.{
  base_port, Worker, pool_of, pool_size, clients_of, start_network, start_pool, stop_current,
  start_loads, configured, configure, Environment, cpu_of,
}
use cloud_native_emulator.Worker.Network.Pool.{server_on-spawn_pool, length-spawn_pool}

module _ (fl : Float) (share : fl.F → ℕ → fl.F) (port_count : ℕ) where
  open fl use {F}

  -- The servers of a pod that was stopped: on the ports from the base port on.
  pub start_network-servers :
      (mbps : F) (peers : List String) (servers offset : ℤ) (bound : Bool) (w : Worker F) (q : ℕ)
      → w.servers ≡ []
      → server_on q (start_network fl share port_count mbps peers servers offset bound w).servers
        ≡ (if leb base_port q && ltb q (base_port + pool_size fl share port_count mbps servers)
            then some (w.next + (q - base_port))
            else none)
  unfolding start_network server_on start_pool
  start_network-servers mbps peers servers offset bound w q h =
      let size = pool_size fl share port_count mbps servers in
      let there = server_on-spawn_pool q base_port size (pool_of w) in
      elim (Bool-cases (ltb 0 size)) [
        | inl some_server ↦ rw (some_server, there, h) refl
        | inr no_server ↦ rw (no_server, h) (ground arith)
      ]

  start_network-clients :
      (mbps : F) (peers : List String) (servers offset : ℤ) (bound : Bool) (w : Worker F)
      → w.clients ≡ []
      → (start_network fl share port_count mbps peers servers offset bound w).clients ≡ (
          if ltb 0 (pool_size fl share port_count mbps servers)
          then clients_of fl share port_count mbps peers offset bound
          else [])
  unfolding start_network start_pool
  start_network-clients mbps peers servers offset bound w h =
      elim (Bool-cases (ltb 0 (pool_size fl share port_count mbps servers))) [
        | inl some_server ↦ rw (some_server, h) refl
        | inr no_server ↦ rw (no_server, h) refl
      ]

  pub start_network-procs :
      (mbps : F) (peers : List String) (servers offset : ℤ) (bound : Bool) (w : Worker F)
      → length (start_network fl share port_count mbps peers servers offset bound w).procs
        ≡ length w.procs + pool_size fl share port_count mbps servers
  unfolding start_network start_pool
  start_network-procs mbps peers servers offset bound w =
      let size = pool_size fl share port_count mbps servers in
      elim (Bool-cases (ltb 0 size)) [
        | inl some_server ↦ rw some_server (length-spawn_pool base_port size (pool_of w))
        | inr no_server ↦ rw no_server (ground arith)
      ]

  pub start_network-rest :
      (mbps : F) (peers : List String) (servers offset : ℤ) (bound : Bool) (w : Worker F)
      → let on = start_network fl share port_count mbps peers servers offset bound w in
        (on.stress ≡ w.stress) × (on.stress_cmd ≡ w.stress_cmd) × (on.ram ≡ w.ram)
  unfolding start_network start_pool
  start_network-rest mbps peers servers offset bound w =
      elim (Bool-cases (ltb 0 (pool_size fl share port_count mbps servers))) [
        | inl some_server ↦ rw some_server (refl, refl, refl)
        | inr no_server ↦ rw no_server (refl, refl, refl)
      ]

-- What runs after a configuration, given what ran before.
pub record IsRunning {fl : Float} (env : Environment fl) (s : Setup (fl.F)) (bound : Bool)
    (before after : Worker (fl.F)) : Type 0 where
  -- One server on each port of the pool, and none on another; processes are new.
  pub servers :
      (q : ℕ)
      → server_on q after.servers ≡ (
          if leb base_port q
            && ltb q (base_port + pool_size fl env.share env.port_count s.net_mbps s.servers)
          then some (before.next + (q - base_port))
          else none)
  -- The clients, where the servers came up.
  pub clients : after.clients ≡ (
      if ltb 0 (pool_size fl env.share env.port_count s.net_mbps s.servers)
      then clients_of fl env.share env.port_count s.net_mbps s.peers s.offset bound
      else [])
  -- A process for each server, and one for the CPU load.
  pub counted :
      length after.procs
      ≡ pool_size fl env.share env.port_count s.net_mbps s.servers + length after.stress
  pub one_stress : length after.stress ≤ 1
  pub unallocated : after.ram ≡ none
  pub recorded : after.setup ≡ some s

-- Nothing runs.
pub record IsIdle {F : Type 0} (w : Worker F) : Type 0 where
  pub no_process : w.procs ≡ []
  pub no_server : w.servers ≡ []
  pub no_stress : w.stress ≡ []
  pub no_client : w.clients ≡ []
  pub no_memory : w.ram ≡ none
  pub no_setup : w.setup ≡ none

module _ (fl : Float) (env : Environment fl) where
  open fl use {F}

  -- The CPU load is one process more, where there is a command.
  abbrev OneMore : Cpu fl env.ceil_div env.round_div → Cpu fl env.ceil_div env.round_div → Type 0
  OneMore c on = (length on.procs ≡ length c.procs + length on.stress) × (length on.stress ≤ 1)

  spawn_stress-OneMore :
      (cmd : Option Command) (mc : F) (c : Cpu fl env.ceil_div env.round_div)
      → c.stress ≡ []
      → OneMore c (spawn_stress fl env.ceil_div env.round_div cmd mc c)
  unfolding spawn_stress
  spawn_stress-OneMore none mc c idle = rw idle (ground arith, ground arith)
  spawn_stress-OneMore (some cmd) mc c idle =
      rw idle (length-append c.procs (c.next ∷ []), ground arith)

  start_cpu-OneMore :
      (mc : F) (c : Cpu fl env.ceil_div env.round_div)
      → c.stress ≡ []
      → c.stress_cmd ≡ none
      → OneMore c (start_cpu fl env.ceil_div env.round_div env.cores env.slice_ms mc c).0
  unfolding start_cpu stop_cpu
  start_cpu-OneMore mc c idle unset =
      let amount = no_less_than_zero fl env.ceil_div env.round_div mc in
      let cmd = cpu_cmd fl env.ceil_div env.round_div env.cores env.slice_ms amount in
      let spawned =
        spawn_stress-OneMore cmd amount (stop_cpu fl env.ceil_div env.round_div c) refl in
      let kept : foldl remove_proc c.procs c.stress ≡ c.procs = rw idle refl in
      let same : (start_cpu fl env.ceil_div env.round_div env.cores env.slice_ms mc c).0
          ≡ spawn_stress fl env.ceil_div env.round_div cmd amount
              (stop_cpu fl env.ceil_div env.round_div c) =
        rw unset refl in
      let on =
        spawn_stress fl env.ceil_div env.round_div cmd amount
          (stop_cpu fl env.ceil_div env.round_div c) in
      subst (OneMore c) (sym same)
        (spawned.0 ∙ ap (λ (ps : List ℕ). length ps + length on.stress) kept, spawned.1)

  pub start_loads-IsRunning :
      (s : Setup F) (bound : Bool) (w : Worker F)
      → IsRunning env s bound w (start_loads fl env s bound (stop_current fl w))
  unfolding start_loads start_cpu stop_current
  start_loads-IsRunning s bound w =
      let on = stop_current fl w in
      let started =
        start_network fl env.share env.port_count s.net_mbps s.peers s.servers s.offset bound on in
      let rest =
        start_network-rest fl env.share env.port_count s.net_mbps s.peers s.servers s.offset bound
          on in
      let procs =
        start_network-procs fl env.share env.port_count s.net_mbps s.peers s.servers s.offset bound
          on in
      let loaded = start_cpu-OneMore s.cpu_millicores (cpu_of fl env started) rest.0 rest.1 in
      record {
        servers = λ q.
            start_network-servers fl env.share env.port_count s.net_mbps s.peers s.servers s.offset
              bound on q refl;
        clients =
            start_network-clients fl env.share env.port_count s.net_mbps s.peers s.servers s.offset
              bound on refl;
        counted = omega (arith, procs, loaded.0);
        one_stress = loaded.1;
        unallocated = rest.2;
        recorded = refl;
      }

  -- What a call of `configure` comes to, by what it reads.
  abbrev pub Configured :
      Result (Option (Setup F)) → Bool → Worker F → Worker F × Result (Unit {0}) → Type 0
  Configured (ok (some s)) bound before (after, done) =
      (done ≡ ok tt) × IsRunning env s bound before after
  Configured (ok none) bound before (after, done) = (done ≡ ok tt) × IsIdle after
  Configured (err why) bound before (after, done) = (done ≡ err why) × IsIdle after

  idle : (w : Worker F) → IsIdle (stop_current fl w)
  unfolding stop_current
  idle w = record {
    no_process = refl;
    no_server = refl;
    no_stress = refl;
    no_client = refl;
    no_memory = refl;
    no_setup = refl;
  }

  configured-Configured :
      (read : Result (Option (Setup F))) (bound : Bool) (w : Worker F)
      → Configured read bound w (configured fl env read bound (stop_current fl w))
  unfolding configured
  configured-Configured (ok (some s)) bound w = (refl, start_loads-IsRunning s bound w)
  configured-Configured (ok none) bound w = (refl, idle w)
  configured-Configured (err why) bound w = (refl, idle w)

  -- Whatever ran before, `configure` leaves one of three states. With a payload that asks for a
  -- load, one new iperf3 server on each port of the pool and none on another, one client per peer
  -- if the base port came up and the rate is positive, at most one stress-ng process, no other
  -- process, no memory held, and the setup recorded. With a payload that asks for nothing,
  -- nothing runs. With a payload that cannot be read, nothing runs and it raises.
  pub configure-Configured :
      (pod : String) (payload : Json F) (bound : Bool) (w : Worker F)
      → Configured
          (read_setup fl env.int_text pod payload)
          bound
          w
          (configure fl env pod payload bound w)
  unfolding configure
  configure-Configured pod payload bound w =
      configured-Configured (read_setup fl env.int_text pod payload) bound w
