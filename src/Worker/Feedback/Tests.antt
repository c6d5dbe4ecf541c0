-- ===== src/Worker/Feedback/Tests.antt =====
-- A pod that uses more CPU than it should, and less memory.
use cloud_native_emulator.Prelude.{
  ℕ, ◌+◌, ◌-◌, ◌/◌, ◌≤◌, ◌≡◌, refl, true, Option, ◌&&◌, none, some, List, [], ◌∷◌, if◌then◌else◌,
  leb, ltb, length,
}
use cloud_native_emulator.Prelude.Int.{ℤ, pos, pos_part, ◌+ℤ◌, ◌*ℤ◌}
use cloud_native_emulator.Prelude.Result.{Error}
use cloud_native_emulator.Json.{no_fields}
use cloud_native_emulator.Samples.{whole}
use cloud_native_emulator.Worker.Config.{Setup}
use cloud_native_emulator.Worker.Cpu.{start_cpu}
use cloud_native_emulator.Worker.Ram.{start_ram}
use cloud_native_emulator.Worker.Servers.{server_on, spawn_server}
use cloud_native_emulator.Worker.Network.{
  base_port, Worker, Environment, pool_size, spawn_pool, start_network, start_pool, stop_current,
  start_loads,
}
use cloud_native_emulator.Worker.Feedback.{
  Tuning, Measure, ram_reading, cpu_reading, adjust, adjust_all,
}
use cloud_native_emulator.Worker.Feedback.Steady.{adjust_all-keeps}

abbrev env : Environment whole
env = record {
  ceil_div = λ a b. pos 1;
  round_div = λ a b. pos (pos_part a / 10);
  share = λ mbps n. mbps;
  port_count = 8;
  cores = 2;
  slice_ms = 0;
  int_text = λ s. none;
}

abbrev tuning : Tuning whole
tuning = record {
  ram_tolerance = pos 1;
  cpu_tolerance = pos 20;
  cpu_fraction = pos 0;
  cpu_gain = pos 1;
  megabytes = λ n. pos (n - 0);
}

abbrev setup : Setup ℤ
setup = record {
  x = pos 1;
  cpu_millicores = pos 500;
  ram_mb = pos 64;
  net_mbps = pos 1;
  peers = "10.0.0.7" ∷ [];
  peer_names = no_fields;
  servers = pos 2;
  offset = pos 1;
}

abbrev unused : Worker ℤ
unused = record {
  next = 0;
  procs = [];
  servers = [];
  stress = [];
  stress_mc = pos 0;
  stress_cmd = none;
  clients = [];
  ram = none;
  names = no_fields;
  setup = none;
}

abbrev started : Worker ℤ
started = start_loads whole env setup true (stop_current whole unused)

abbrev refuses_none : ℕ → Option Error
refuses_none size = none

abbrev readings : List (Measure ℤ)
readings = cpu_reading (pos 700) ∷ ram_reading (pos 24) refuses_none ∷ cpu_reading (pos 510) ∷ []

program : Unit {0}
unfolding adjust adjust_all start_loads start_network start_pool spawn_pool spawn_server
    stop_current start_cpu start_ram ◌+ℤ◌ ◌*ℤ◌
program = tt

abbrev after : Worker ℤ
after = adjust_all whole env tuning readings started

-- The CPU load was set 200 lower, once, and 40 MB are held.
lowered : after.stress_mc ≡ pos 300
unfolding program
lowered = refl

held : after.ram ≡ some 41943040
unfolding program
held = refl

adjust_all-keeps_example :
    ((q : ℕ)
      → server_on q after.servers ≡ (
          if leb base_port q
            && ltb q
                (base_port + pool_size whole env.share env.port_count setup.net_mbps setup.servers)
          then some (unused.next + (q - base_port))
          else none))
    × (after.clients ≡ started.clients)
    × (after.setup ≡ some setup)
    × (length after.procs
        ≡ pool_size whole env.share env.port_count setup.net_mbps setup.servers
          + length after.stress)
    × (length after.stress ≤ 1)
adjust_all-keeps_example = adjust_all-keeps whole env setup true unused tuning readings

abbrev quiet_readings : List (Measure ℤ)
quiet_readings = cpu_reading (pos 510) ∷ ram_reading (pos 63) refuses_none ∷ []
