-- ===== src/Worker/Network.antt =====
-- worker/loads.py, `start_network` and `stop_current`, and worker/worker.py, `configure`: the
-- worker's processes and clients as a state. PROCS is one list, which the pool of servers and the
-- CPU load share. Supervisor threads and their iperf3 children are ended by `stop_current`, which
-- joins them; a client is what one of them keeps running.
pub mod Pool
pub mod Started
pub mod Reach
mod Tests
use cloud_native_emulator.Prelude.{
  ℕ, zero, suc, ◌+◌, String, Bool, true, false, not, Option, none, some, List, [], ◌∷◌, ◌++◌,
  if◌then◌else◌, ltb, null, length, map,
}
use cloud_native_emulator.Prelude.Float.{Float}
use cloud_native_emulator.Prelude.Int.{ℤ, pos, negsuc, ◌+ℤ◌}
use cloud_native_emulator.Prelude.Result.{Error, Result, ok, err}
use cloud_native_emulator.Json.{Json, Fields}
use cloud_native_emulator.Worker.Config.{Setup, read_setup}
use cloud_native_emulator.Worker.Cpu.{Command, Cpu, start_cpu}
use cloud_native_emulator.Worker.Servers
use cloud_native_emulator.Worker.Servers.{spawn_server}

-- IPERF_BASE_PORT
abbrev pub base_port : ℕ
base_port = 9999

-- A peer supervisor: its peer, its rate in Mbps, and the port that its client connects to.
pub record Client (F : Type 0) : Type 0 where
  pub peer : String
  pub mbps : F
  pub port : ℤ

-- `for offset in range(pool_size)`
unfoldable pub spawn_pool : ℕ → ℕ → Servers.Pool → Servers.Pool
unfolding spawn_server
spawn_pool port zero pool = pool
spawn_pool port (suc n) pool = spawn_pool (suc port) n (spawn_server port pool)

-- The module globals of loads.py, and STATE: its `peer_names`, which a stop leaves, and the rest,
-- none where it says that nothing runs.
pub record Worker (F : Type 0) : Type 0 where
  pub next : ℕ
  pub procs : List ℕ
  pub servers : List (ℕ × ℕ)
  pub stress : List ℕ
  pub stress_mc : F
  pub stress_cmd : Option (Option Command)
  pub clients : List (Client F)
  pub ram : Option ℕ
  pub names : Fields F
  pub setup : Option (Setup F)

module _ {F : Type 0} where
  -- The loop over the peers.
  abbrev pub clients_for : F → ℤ → List String → List (Client F)
  clients_for mbps port [] = []
  clients_for mbps port (peer ∷ peers) =
      record { peer = peer; mbps = mbps; port = port } ∷ clients_for mbps port peers

  abbrev pub pool_of : Worker F → Servers.Pool
  pool_of w = record { next = w.next; procs = w.procs; servers = w.servers }

  abbrev pub with_pool : Servers.Pool → Worker F → Worker F
  with_pool p w = record w { next = p.next; procs = p.procs; servers = p.servers }

-- `share` divides the rate by the number of peers, `port_count` is IPERF_PORT_COUNT.
module _ (fl : Float) (share : fl.F → ℕ → fl.F) (port_count : ℕ) where
  open fl use {F, of_int, less}

  -- The size of the pool of servers.
  abbrev pub pool_size : F → ℤ → ℕ
  pool_size mbps (pos zero) = if less (of_int (pos 0)) mbps then port_count else 0
  pool_size mbps (pos (suc n)) = suc n
  pool_size mbps (negsuc n) = if less (of_int (pos 0)) mbps then port_count else 0

  -- The clients, once the servers have been started.
  abbrev pub clients_of : F → List String → ℤ → Bool → List (Client F)
  clients_of mbps peers offset bound =
      if bound
      then (if less (of_int (pos 0)) mbps
          then clients_for (share mbps (length peers)) (pos base_port +ℤ offset) peers
          else [])
      else []

  -- The servers of a pool of some size, and the clients.
  unfoldable pub start_pool : ℕ → F → List String → ℤ → Bool → Worker F → Worker F
  unfolding spawn_pool ◌+ℤ◌
  start_pool size mbps peers offset bound w =
      let started = with_pool (spawn_pool base_port size (pool_of w)) w in
      record started { clients = started.clients ++ clients_of mbps peers offset bound }

  -- `start_network`; `bound` says whether the base port is bound in time.
  unfoldable pub start_network : F → List String → ℤ → ℤ → Bool → Worker F → Worker F
  unfolding start_pool
  start_network mbps peers servers offset bound w =
      let size = pool_size mbps servers in
      if ltb 0 size then start_pool size mbps peers offset bound w else w

module _ (fl : Float) where
  open fl use {F, of_int}

  -- `stop_current`
  unfoldable pub stop_current : Worker F → Worker F
  stop_current w = record {
    next = w.next;
    procs = [];
    servers = [];
    stress = [];
    stress_mc = of_int (pos 0);
    stress_cmd = none;
    clients = [];
    ram = none;
    names = w.names;
    setup = none;
  }

-- The environment of a worker: the divisions of `_cpu_cmd`, `share` and IPERF_PORT_COUNT as
-- above, the number of cores, CPU_LOAD_SLICE_MS, and int() of a text.
pub record Environment (fl : Float) : Type 0 where
  pub ceil_div : fl.F → fl.F → ℤ
  pub round_div : fl.F → fl.F → ℤ
  pub share : fl.F → ℕ → fl.F
  pub port_count : ℕ
  pub cores : ℕ
  pub slice_ms : ℕ
  pub int_text : List ℕ → Option ℤ

module _ (fl : Float) (env : Environment fl) where
  open fl use {F}

  abbrev pub cpu_of : Worker F → Cpu fl env.ceil_div env.round_div
  cpu_of w = record {
    next = w.next;
    procs = w.procs;
    stress = w.stress;
    stress_mc = w.stress_mc;
    stress_cmd = w.stress_cmd;
  }

  abbrev pub with_cpu : Cpu fl env.ceil_div env.round_div → Worker F → Worker F
  with_cpu c w = record w {
    next = c.next;
    procs = c.procs;
    stress = c.stress;
    stress_mc = c.stress_mc;
    stress_cmd = c.stress_cmd;
  }

  -- The loads of a setup, and the state that `configure` then records.
  unfoldable pub start_loads : Setup F → Bool → Worker F → Worker F
  unfolding start_network start_cpu
  start_loads s bound w =
      let on =
        start_network fl env.share env.port_count s.net_mbps s.peers s.servers s.offset bound w in
      let cpu =
        start_cpu fl env.ceil_div env.round_div env.cores env.slice_ms s.cpu_millicores
          (cpu_of on) in
      let loaded = with_cpu cpu.0 on in record loaded { names = s.peer_names; setup = some s }

  -- `configure`, given what it reads: what it leaves, and whether it raised.
  abbrev pub configured : Result (Option (Setup F)) → Bool → Worker F → Worker F × Result (Unit {0})
  unfolding start_loads
  configured (err why) bound w = (w, err why)
  configured (ok none) bound w = (w, ok tt)
  configured (ok (some s)) bound w = (start_loads s bound w, ok tt)

  -- `configure`
  unfoldable pub configure : String → Json F → Bool → Worker F → Worker F × Result (Unit {0})
  unfolding stop_current read_setup configured
  configure pod payload bound w =
      configured (read_setup fl env.int_text pod payload) bound (stop_current fl w)
