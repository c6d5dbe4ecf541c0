-- ===== src/Worker/Feedback/Steady.antt =====
-- What the feedback leaves alone.
use cloud_native_emulator.Prelude.{
  ℕ, zero, suc, ◌+◌, ◌-◌, ◌≤◌, ◌≡◌, refl, sym, ap, ◌∙◌, Bool, ◌&&◌, Option, none, some, List, [],
  ◌∷◌, ◌++◌, if◌then◌else◌, length, length-append, true, arith, inl, inr, Bool-cases, ltb, leb,
}
use cloud_native_emulator.Prelude.Float.{Float}
use cloud_native_emulator.Prelude.Result.{Result, Error, ok, err}
use cloud_native_emulator.Worker.Servers
use cloud_native_emulator.Worker.Servers.{server_on, spawn_server}
use cloud_native_emulator.Worker.Config.{Setup}
use cloud_native_emulator.Worker.Cpu.{Command}
use cloud_native_emulator.Worker.Cpu.Single.{
  AreBelow, IsTracked, Stresses, append_nil, start_cpu-IsTracked,
}
use cloud_native_emulator.Worker.Network.{
  base_port, Worker, Environment, cpu_of, spawn_pool, pool_of, pool_size, start_pool, start_network,
  stop_current, start_loads,
}
use cloud_native_emulator.Worker.Network.Started.{
  start_loads-IsRunning, start_network-procs, start_network-rest,
}
use cloud_native_emulator.Worker.Feedback.{
  Tuning, Measure, ram_reading, cpu_reading, with_buffer, resize, restart, new_mb, is_at_most,
  absolute, minus, larger, adjust_ram, adjust_cpu, adjust, adjust_all,
}
use cloud_native_emulator.Worker.Ram.{start_ram}

AreBelow-append_last : (n : ℕ) (qs : List ℕ) → AreBelow n qs → AreBelow (suc n) (qs ++ (n ∷ []))
AreBelow-append_last n [] h = (omega arith, tt)
AreBelow-append_last n (q ∷ qs) (h, hs) = (omega (arith, h), AreBelow-append_last n qs hs)

-- Processes are numbered upwards.
spawn_pool-AreBelow :
    (port n : ℕ) (pool : Servers.Pool)
    → AreBelow pool.next pool.procs
    → AreBelow (spawn_pool port n pool).next (spawn_pool port n pool).procs
unfolding spawn_pool spawn_server
spawn_pool-AreBelow port zero pool h = h
spawn_pool-AreBelow port (suc n) pool h =
    spawn_pool-AreBelow (suc port) n (spawn_server port pool)
      (AreBelow-append_last pool.next pool.procs h)

module _ (fl : Float) (env : Environment fl) where
  open fl use {F}

  -- Of two states with these other processes: the second has the servers, the clients and the
  -- setup of the first, and at most one process of the CPU load.
  pub record IsSteady (others : List ℕ) (before after : Worker F) : Type 0 where
    pub servers : after.servers ≡ before.servers
    pub clients : after.clients ≡ before.clients
    pub setup : after.setup ≡ before.setup
    pub tracked : IsTracked fl env.ceil_div env.round_div others (cpu_of fl env after)

  module _ (others : List ℕ) where
    same :
        (w : Worker F)
        → IsTracked fl env.ceil_div env.round_div others (cpu_of fl env w)
        → IsSteady others w w
    same w h = record { servers = refl; clients = refl; setup = refl; tracked = h }

    restart-IsSteady :
        (mc : Option F) (w : Worker F)
        → IsTracked fl env.ceil_div env.round_div others (cpu_of fl env w)
        → IsSteady others w (restart fl env mc w)
    unfolding restart
    restart-IsSteady none w h = same w h
    restart-IsSteady (some mc) w h = record {
      servers = refl;
      clients = refl;
      setup = refl;
      tracked =
          (start_cpu-IsTracked fl env.ceil_div env.round_div env.cores env.slice_ms mc others
            (cpu_of fl env w) h).0;
    }

    adjust_cpu-IsSteady :
        (tuning : Tuning fl) (actual : F) (w : Worker F) (s : Option (Setup F))
        → IsTracked fl env.ceil_div env.round_div others (cpu_of fl env w)
        → IsSteady others w (adjust_cpu fl env tuning actual w s)
    unfolding adjust_cpu
    adjust_cpu-IsSteady tuning actual w none h = same w h
    adjust_cpu-IsSteady tuning actual w (some s) h = restart-IsSteady _ w h

    with_buffer-IsSteady :
        (w : Worker F) (r : Result (Option ℕ))
        → IsTracked fl env.ceil_div env.round_div others (cpu_of fl env w)
        → IsSteady others w (with_buffer fl w r).0
    with_buffer-IsSteady w (ok buffer) h = record {
      servers = refl;
      clients = refl;
      setup = refl;
      tracked = h;
    }
    with_buffer-IsSteady w (err why) h = record {
      servers = refl;
      clients = refl;
      setup = refl;
      tracked = h;
    }

    resize-IsSteady :
        (refuses : ℕ → Option Error) (mb : Option F) (w : Worker F)
        → IsTracked fl env.ceil_div env.round_div others (cpu_of fl env w)
        → IsSteady others w (resize fl refuses mb w).0
    unfolding resize
    resize-IsSteady refuses none w h = same w h
    resize-IsSteady refuses (some mb) w h = with_buffer-IsSteady w (start_ram fl refuses mb) h

    adjust_ram-IsSteady :
        (tuning : Tuning fl) (actual : F) (refuses : ℕ → Option Error) (w : Worker F)
        (s : Option (Setup F))
        → IsTracked fl env.ceil_div env.round_div others (cpu_of fl env w)
        → IsSteady others w (adjust_ram fl tuning actual refuses w s).0
    unfolding adjust_ram
    adjust_ram-IsSteady tuning actual refuses w none h = same w h
    adjust_ram-IsSteady tuning actual refuses w (some s) h =
        resize-IsSteady refuses (new_mb fl tuning s actual w.ram) w h

    adjust-IsSteady :
        (tuning : Tuning fl) (r : Measure F) (w : Worker F)
        → IsTracked fl env.ceil_div env.round_div others (cpu_of fl env w)
        → IsSteady others w (adjust fl env tuning r w).0
    unfolding adjust
    adjust-IsSteady tuning (ram_reading actual refuses) w h =
        adjust_ram-IsSteady tuning actual refuses w w.setup h
    adjust-IsSteady tuning (cpu_reading actual) w h = adjust_cpu-IsSteady tuning actual w w.setup h

    adjust_all-IsSteady :
        (tuning : Tuning fl) (rs : List (Measure F)) (w : Worker F)
        → IsTracked fl env.ceil_div env.round_div others (cpu_of fl env w)
        → IsSteady others w (adjust_all fl env tuning rs w)
    unfolding adjust_all
    adjust_all-IsSteady tuning [] w h = same w h
    adjust_all-IsSteady tuning (r ∷ rs) w h =
        let next = (adjust fl env tuning r w).0 in
        let first = adjust-IsSteady tuning r w h in
        let rest = adjust_all-IsSteady tuning rs next first.tracked in
        record {
          servers = rest.servers ∙ first.servers;
          clients = rest.clients ∙ first.clients;
          setup = rest.setup ∙ first.setup;
          tracked = rest.tracked;
        }

  -- A reading that is within the tolerance of the setup's amount.
  abbrev pub IsWithin : Tuning fl → Setup F → Measure F → Type 0
  IsWithin tuning s (ram_reading actual refuses) =
      is_at_most fl (absolute fl (minus fl s.ram_mb actual)) tuning.ram_tolerance ≡ true
  IsWithin tuning s (cpu_reading actual) =
      is_at_most fl (absolute fl (minus fl s.cpu_millicores actual))
        (larger fl tuning.cpu_tolerance (fl.mul tuning.cpu_fraction s.cpu_millicores))
      ≡ true

  start_network-AreBelow :
      (s : Setup F) (bound : Bool) (w : Worker F)
      → AreBelow w.next w.procs
      → let on =
          start_network fl env.share env.port_count s.net_mbps s.peers s.servers s.offset bound w in
        AreBelow on.next on.procs
  unfolding start_network start_pool
  start_network-AreBelow s bound w h =
      let size = pool_size fl env.share env.port_count s.net_mbps s.servers in
      elim (Bool-cases (ltb 0 size)) [
        | inl some_server ↦ rw some_server (spawn_pool-AreBelow base_port size (pool_of w) h)
        | inr no_server ↦ rw no_server h
      ]

  -- The servers, and the CPU load beside them.
  abbrev servers_of : Setup F → Bool → Worker F → Worker F
  servers_of s bound w =
      start_network fl env.share env.port_count s.net_mbps s.peers s.servers s.offset bound
        (stop_current fl w)

  length-servers_of :
      (s : Setup F) (bound : Bool) (w : Worker F)
      → length (servers_of s bound w).procs
        ≡ pool_size fl env.share env.port_count s.net_mbps s.servers
  unfolding stop_current
  length-servers_of s bound w =
      let counted =
        start_network-procs fl env.share env.port_count s.net_mbps s.peers s.servers s.offset bound
          (stop_current fl w) in
      omega (arith, counted)

  idle-Stresses :
      (others : List ℕ) (next : ℕ) (stress : List ℕ) (cmd : Option (Option Command))
      → stress ≡ []
      → cmd ≡ none
      → Stresses others next stress cmd
  idle-Stresses others next stress none h e = h
  idle-Stresses others next stress (some c) h e = cc

  Stresses-length :
      (others : List ℕ) (next : ℕ) (stress : List ℕ) (cmd : Option (Option Command))
      → Stresses others next stress cmd
      → length stress ≤ 1
  Stresses-length others next stress none h = rw h (omega arith)
  Stresses-length others next stress (some none) h = rw h (omega arith)
  Stresses-length others next stress (some (some c)) (p, is_p, below, new) = rw is_p (omega arith)

  start_loads-IsTracked :
      (s : Setup F) (bound : Bool) (w : Worker F)
      → IsTracked fl env.ceil_div env.round_div
          (servers_of s bound w).procs
          (cpu_of fl env (start_loads fl env s bound (stop_current fl w)))
  unfolding start_loads stop_current
  start_loads-IsTracked s bound w =
      let on = servers_of s bound w in
      let rest =
        start_network-rest fl env.share env.port_count s.net_mbps s.peers s.servers s.offset bound
          (stop_current fl w) in
      (start_cpu-IsTracked fl env.ceil_div env.round_div env.cores env.slice_ms s.cpu_millicores
        on.procs (cpu_of fl env on)
        (
          rw rest.0 (sym (append_nil on.procs)),
          start_network-AreBelow s bound (stop_current fl w) tt,
          idle-Stresses on.procs on.next on.stress on.stress_cmd rest.0 rest.1,
        )).0

  -- After a configuration that started a load, however many steps of the feedback follow, whatever
  -- they read and whatever memory is refused to them: the servers are those of the pool, the
  -- clients and the setup are those that the configuration started, and the processes are one for
  -- each server and at most one for the CPU load.
  pub adjust_all-keeps :
      (s : Setup F) (bound : Bool) (w : Worker F) (tuning : Tuning fl) (readings : List (Measure F))
      → let started = start_loads fl env s bound (stop_current fl w) in
        let after = adjust_all fl env tuning readings started in
        ((q : ℕ)
          → server_on q after.servers ≡ (
              if leb base_port q
                && ltb q (base_port + pool_size fl env.share env.port_count s.net_mbps s.servers)
              then some (w.next + (q - base_port))
              else none))
        × (after.clients ≡ started.clients)
        × (after.setup ≡ some s)
        × (length after.procs
            ≡ pool_size fl env.share env.port_count s.net_mbps s.servers + length after.stress)
        × (length after.stress ≤ 1)
  adjust_all-keeps s bound w tuning readings =
      let started = start_loads fl env s bound (stop_current fl w) in
      let after = adjust_all fl env tuning readings started in
      let others = (servers_of s bound w).procs in
      let running = start_loads-IsRunning fl env s bound w in
      let steady =
        adjust_all-IsSteady others tuning readings started (start_loads-IsTracked s bound w) in
      let (procs, below, stresses) = steady.tracked in
      (
        λ q. ap (λ (ss : List (ℕ × ℕ)). server_on q ss) steady.servers ∙ running.servers q,
        steady.clients,
        steady.setup ∙ running.recorded,
        ap (λ (ps : List ℕ). length ps) procs
            ∙ length-append others after.stress
            ∙ ap (λ n. n + length after.stress) (length-servers_of s bound w),
        Stresses-length others after.next after.stress after.stress_cmd stresses,
      )
