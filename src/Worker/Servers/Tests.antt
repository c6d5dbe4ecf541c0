-- ===== src/Worker/Servers/Tests.antt =====
-- A pool of four servers, and the recycler's theorems there.
use cloud_native_emulator.Prelude.{
  ◌≡◌, refl, true, false, none, some, [], ◌∷◌, has_number, ◌==◌, if◌then◌else◌, arith,
}
use cloud_native_emulator.Worker.Servers.{
  Pool, Memory, Reading, server_on, set_server, remove, spawn_server, recycle_server, check_server,
  recycler_pass,
}
use cloud_native_emulator.Worker.Servers.Recycling.{
  IsChecked, recycler_pass-IsChecked, IsConsistent,
}

abbrev pool : Pool
pool = record {
  next = 4;
  procs = 0 ∷ 1 ∷ 2 ∷ 3 ∷ [];
  servers = (9999, 0) ∷ (10000, 1) ∷ (10001, 2) ∷ (10002, 3) ∷ [];
}

-- A client left port 10001 at time 50.
abbrev memory : Memory
memory = record {
  last_seen = λ q. if q == 10001 then some 50 else none;
  seen_conn = λ q. if q == 10001 then true else false;
}

-- At time 80 process 0 has exited and a client is connected to port 10000.
abbrev reading : Reading
reading = record { exited = λ p. p == 0; established = 10000 ∷ []; now = 80 }

program : Unit {0}
unfolding server_on set_server remove spawn_server recycle_server check_server recycler_pass
    has_number
program = tt

recycler_pass-servers :
    (recycler_pass 15 reading (pool, memory)).0.servers
    ≡ (9999, 4) ∷ (10000, 1) ∷ (10001, 5) ∷ (10002, 3) ∷ []
unfolding program
recycler_pass-servers = refl

recycler_pass-procs : (recycler_pass 15 reading (pool, memory)).0.procs ≡ 1 ∷ 3 ∷ 4 ∷ 5 ∷ []
unfolding program
recycler_pass-procs = refl

recycler_pass-IsChecked_example :
    IsChecked 15 reading (pool, memory) (recycler_pass 15 reading (pool, memory)) 10001 2
unfolding program
recycler_pass-IsChecked_example =
    recycler_pass-IsChecked 15 reading pool memory 10001 2 (refl, (refl, (refl, (refl, tt)))) refl

memory-IsConsistent : IsConsistent 15 reading memory
memory-IsConsistent = λ q. ground arith
