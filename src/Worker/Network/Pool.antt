-- ===== src/Worker/Network/Pool.antt =====
-- Which ports the servers of a pod listen on.
use cloud_native_emulator.Prelude.{
  ℕ, zero, suc, ◌+◌, ◌-◌, ◌≡◌, ◌&&◌, some, arith, if◌then◌else◌, leb, ltb, length, length-append,
  [], ◌∷◌,
}
use cloud_native_emulator.Worker.Servers
use cloud_native_emulator.Worker.Servers.{server_on, spawn_server}
use cloud_native_emulator.Worker.Servers.Recycling.{server_on-set_server}
use cloud_native_emulator.Worker.Network.{spawn_pool}

pub server_on-spawn_pool :
    (q port n : ℕ) (pool : Servers.Pool)
    → server_on q (spawn_pool port n pool).servers ≡ (
        if leb port q && ltb q (port + n)
        then some (pool.next + (q - port))
        else server_on q pool.servers)
unfolding spawn_pool spawn_server
server_on-spawn_pool q port zero pool = ground arith
server_on-spawn_pool q port (suc n) pool = ground (
  arith,
  server_on-spawn_pool q (suc port) n (spawn_server port pool),
  server_on-set_server q port pool.next pool.servers,
)

pub length-spawn_pool :
    (port n : ℕ) (pool : Servers.Pool)
    → length (spawn_pool port n pool).procs ≡ length pool.procs + n
unfolding spawn_pool spawn_server
length-spawn_pool port zero pool = ground arith
length-spawn_pool port (suc n) pool = ground (
  arith,
  length-spawn_pool (suc port) n (spawn_server port pool),
  length-append pool.procs (pool.next ∷ []),
)
