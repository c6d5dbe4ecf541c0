-- ===== src/Worker/Network/Reach.antt =====
-- The controller's wiring and the worker's processes together: a client finds a server.
use cloud_native_emulator.Prelude.{
  ℕ, zero, suc, ◌+◌, ◌-◌, ◌<◌, ◌≡◌, ◌∙◌, refl, String, Bool, true, false, some, arith, List, [],
  ◌∷◌, if◌then◌else◌, All, inl, inr, Bool-cases, sym, ap, subst, length,
}
use cloud_native_emulator.Prelude.Dict.{lookup}
use cloud_native_emulator.Prelude.Float.{Float}
use cloud_native_emulator.Prelude.Int.{pos, ◌+ℤ◌}
use cloud_native_emulator.Prelude.Result.{Result, ok, ok_inj}
use cloud_native_emulator.Json.{Fields, object}
use cloud_native_emulator.Merge.{get}
use cloud_native_emulator.Template.{Axis, Template}
use cloud_native_emulator.Validation.{read_axis}
use cloud_native_emulator.Peers.Resolve
use cloud_native_emulator.Peers.Resolve.{Links, Wiring}
use cloud_native_emulator.Peers.Services.{has_edge}
use cloud_native_emulator.Peers.Wired.{IsWired}
use cloud_native_emulator.Cluster.Materialise.{role_peers}
use cloud_native_emulator.Cluster.Roles.{PeerConfig, role_config}
use cloud_native_emulator.Worker.Servers.{server_on}
use cloud_native_emulator.Worker.Config.{Setup, is_idle, linear, read_setup}
use cloud_native_emulator.Worker.Config.Written.{role_config-read, setup_of}
use cloud_native_emulator.Worker.Network.{
  base_port, Client, Worker, pool_size, clients_for, configure, Environment,
}
use cloud_native_emulator.Worker.Network.Started.{
  IsRunning, IsIdle, Configured, configure-Configured,
}

-- A client's port is the one of a server.
abbrev pub IsServed : {F : Type 0} → Worker F → Client F → Type 0
IsServed w c =
    (port : ℕ) × (proc : ℕ) × (c.port ≡ pos port) × (server_on port w.servers ≡ some proc)

-- The three load formulas of a role.
pub record HasAxes (fl : Float) (role : Fields (fl.F)) : Type 0 where
  pub cpu : Axis (fl.F)
  pub ram : Axis (fl.F)
  pub net : Axis (fl.F)
  pub at_cpu : read_axis fl (get "cpu" role) ≡ ok cpu
  pub at_ram : read_axis fl (get "ram" role) ≡ ok ram
  pub at_net : read_axis fl (get "net" role) ≡ ok net

module _ (fl : Float) (env : Environment fl) where
  open fl use {F, of_int, less}

  IsServed-clients_for :
      (mbps : F) (o : ℕ) (w : Worker F) (peers : List String)
      → ((proc : ℕ) × (server_on (base_port + o) w.servers ≡ some proc))
      → All (IsServed w) (clients_for mbps (pos base_port +ℤ pos o) peers)
  unfolding ◌+ℤ◌
  IsServed-clients_for mbps o w [] at = tt
  IsServed-clients_for mbps o w (peer ∷ peers) (proc, at) =
      ((base_port + o, proc, ground arith, at), IsServed-clients_for mbps o w peers (proc, at))

  -- After a configuration with a role's config.json.
  role_config-Configured :
      (pod : String) (role : Fields F) (p : PeerConfig) (x : F) (config : Fields F)
      (axes : HasAxes fl role) (bound : Bool) (w : Worker F)
      → role_config fl (object role) p x ≡ ok config
      → Configured fl env
          (ok (setup_of fl pod axes.cpu axes.ram axes.net p x))
          bound
          w
          (configure fl env pod (object config) bound w)
  role_config-Configured pod role p x config axes bound w written =
      let (other, same, valid, read) =
        role_config-read fl env.int_text pod role axes.cpu axes.ram axes.net p x axes.at_cpu
          axes.at_ram axes.at_net in
      let read' : read_setup fl env.int_text pod (object config)
          ≡ ok (setup_of fl pod axes.cpu axes.ram axes.net p x) =
        ap (λ (c : Fields F). read_setup fl env.int_text pod (object c))
          (ok_inj (sym written ∙ same))
        ∙ read in
      subst (λ r. Configured fl env r bound w (configure fl env pod (object config) bound w)) read'
        (configure-Configured fl env pod (object config) bound w)

  busy : (a b c : F) (o n : ℕ) → o < n → is_idle fl a b c (pos n) ≡ false
  unfolding is_idle
  busy a b c o n below = ground (
    arith,
    Bool-cases (fl.equal a (fl.of_int (pos 0))),
    Bool-cases (fl.equal b (fl.of_int (pos 0))),
    Bool-cases (fl.equal c (fl.of_int (pos 0))),
  )

  size-pos : (mbps : F) (o n : ℕ) → o < n → pool_size fl env.share env.port_count mbps (pos n) ≡ n
  size-pos mbps o zero below = omega arith
  size-pos mbps o (suc n) below = refl

  running-serves :
      (s : Setup F) (bound : Bool) (before after : Worker F) (o n : ℕ)
      → s.servers ≡ pos n
      → o < n
      → IsRunning env s bound before after
      → (proc : ℕ) × (server_on (base_port + o) after.servers ≡ some proc)
  running-serves s bound before after o n count below running =
      let at = running.servers (base_port + o) in
      let sized = rw (count, size-pos s.net_mbps o n below) at at in
      (before.next + (base_port + o - base_port), sized ∙ ground (arith, below))

  -- A pod whose role has servers listens on the port of every offset below their number.
  served-at :
      (pod : String) (cpu ram net : Axis F) (p : PeerConfig) (x : F) (bound : Bool) (o : ℕ)
      (w : Worker F) (r : Worker F × Result (Unit {0}))
      → o < p.servers
      → Configured fl env (ok (setup_of fl pod cpu ram net p x)) bound w r
      → (proc : ℕ) × (server_on (base_port + o) r.0.servers ≡ some proc)
  served-at pod cpu ram net p x bound o w r below c =
      let loaded = busy (linear fl cpu x) (linear fl ram x) (linear fl net x) o p.servers below in
      let (done, running) = rw loaded at c in
      running-serves _ bound w r.0 o p.servers refl below running

  All-if :
      (P : Client F → Type 0) (b : Bool) (cs : List (Client F))
      → All P cs
      → All P (if b then cs else [])
  All-if P true cs h = h
  All-if P false cs h = tt

  running-clients :
      (s : Setup F) (bound : Bool) (before after target : Worker F) (o : ℕ)
      → s.offset ≡ pos o
      → ((proc : ℕ) × (server_on (base_port + o) target.servers ≡ some proc))
      → IsRunning env s bound before after
      → All (IsServed target) after.clients
  running-clients s bound before after target o at there running =
      let cs =
        IsServed-clients_for (env.share s.net_mbps (length s.peers)) o target s.peers there in
      rw (running.clients, at)
        (All-if _ _ _ (All-if _ bound _ (All-if _ (less (of_int (pos 0)) s.net_mbps) _ cs)))

  clients-at :
      (pod : String) (cpu ram net : Axis F) (p : PeerConfig) (x : F) (bound : Bool) (o : ℕ)
      (w : Worker F) (r : Worker F × Result (Unit {0})) (target : Worker F)
      → lookup pod p.offsets ≡ some o
      → Configured fl env (ok (setup_of fl pod cpu ram net p x)) bound w r
      → (proc : ℕ) × (server_on (base_port + o) target.servers ≡ some proc)
      → All (IsServed target) r.0.clients
  clients-at pod cpu ram net p x bound o w r target at c there =
      elim (Bool-cases
        (is_idle fl (linear fl cpu x) (linear fl ram x) (linear fl net x) (pos p.servers))) [
          | inl idle ↦
              let (done, none_left) : _ × IsIdle r.0 = rw idle at c in
              subst (All (IsServed target)) (sym none_left.no_client) tt
          | inr loaded ↦
              let (done, running) = rw loaded at c in
              running-clients _ bound w r.0 target o (rw at refl) there running
        ]

  -- Let the wiring be what the resolution promises, and let a pod p of role r hold an offset, where
  -- r has an edge to d. Once p has been configured with the config.json that is written for r,
  -- and a pod q of d with the one that is written for d, with whatever ran on them before, every
  -- client that p runs connects to a port on which q runs a server. (The roles' three formulas
  -- hold numbers; whether the base ports come up in time is left open.)
  pub clients-IsServed :
      (cluster : Resolve.Cluster) (t : Template F) (w : Wiring)
      → IsWired cluster t w
      → (r d p q : String) (o : ℕ) → lookup p (w.table.offsets r) ≡ some o
      → has_edge t.edges r d ≡ true
      → (links_r links_d : Links) (role_r role_d : Fields F) → HasAxes fl role_r
      → HasAxes fl role_d
      → (x_r x_d : F) (config_r config_d : Fields F)
      → role_config fl (object role_r) (role_peers w r links_r) x_r ≡ ok config_r
      → role_config fl (object role_d) (role_peers w d links_d) x_d ≡ ok config_d
      → (bound_p bound_q : Bool) (at_p at_q : Worker F)
      → All
          (IsServed (configure fl env q (object config_d) bound_q at_q).0)
          (configure fl env p (object config_r) bound_p at_p).0.clients
  clients-IsServed cluster t w wired r d p q o at edge links_r links_d role_r role_d axes_r axes_d
        x_r x_d config_r config_d written_r written_d bound_p bound_q at_p at_q =
      let source = role_peers w r links_r in
      let target = role_peers w d links_d in
      let there =
        served-at q axes_d.cpu axes_d.ram axes_d.net target x_d bound_q o at_q
          (configure fl env q (object config_d) bound_q at_q) (wired.served r p o d at edge)
          (role_config-Configured q role_d target x_d config_d axes_d bound_q at_q written_d) in
      clients-at p axes_r.cpu axes_r.ram axes_r.net source x_r bound_p o at_p
        (configure fl env p (object config_r) bound_p at_p)
        (configure fl env q (object config_d) bound_q at_q).0 at
        (role_config-Configured p role_r source x_r config_r axes_r bound_p at_p written_r) there
