-- ===== src/Worker/Servers.antt =====
-- worker/loads.py, the pool of iperf3 servers: `_spawn_server`, `_recycle_server_locked` and one
-- pass of `_server_recycler`. Processes are numbered in the order in which they are spawned. The
-- state of the processes, the connections and the monotonic clock are read once a pass and are
-- arguments; the clock is a whole number of its units.
pub mod Recycling
mod Tests
use cloud_native_emulator.Prelude.{
  ℕ, suc, ◌+◌, ◌-◌, Bool, true, false, ◌&&◌, Option, none, some, List, [], ◌∷◌, ◌++◌, foldl,
  if◌then◌else◌, ◌==◌, leb, has_number,
}

-- PROCS, and IPERF_SERVERS with the process on each port; `next` numbers the next process.
pub record Pool : Type 0 where
  pub next : ℕ
  pub procs : List ℕ
  pub servers : List (ℕ × ℕ)

-- d.get(port)
unfoldable pub server_on : ℕ → List (ℕ × ℕ) → Option ℕ
server_on port [] = none
server_on port ((q, proc) ∷ rest) = if q == port then some proc else server_on port rest

-- d[port] = proc
unfoldable pub set_server : ℕ → ℕ → List (ℕ × ℕ) → List (ℕ × ℕ)
set_server port proc [] = (port, proc) ∷ []
set_server port proc ((q, old) ∷ rest) =
    if q == port then (q, proc) ∷ rest else (q, old) ∷ set_server port proc rest

-- `if old in PROCS: PROCS.remove(old)`
unfoldable pub remove : ℕ → List ℕ → List ℕ
remove n [] = []
remove n (m ∷ ms) = if m == n then ms else m ∷ remove n ms

-- `_spawn_server`: the process goes to the end of PROCS.
unfoldable pub spawn_server : ℕ → Pool → Pool
unfolding set_server
spawn_server port pool = record {
  next = suc pool.next;
  procs = pool.procs ++ (pool.next ∷ []);
  servers = set_server port pool.next pool.servers;
}

abbrev pub without_old : Option ℕ → List ℕ → List ℕ
without_old none procs = procs
without_old (some old) procs = remove old procs

-- `_recycle_server_locked`: the old process is ended and leaves PROCS, a new one takes its port.
unfoldable pub recycle_server : ℕ → Pool → Pool
unfolding spawn_server server_on remove
recycle_server port pool = spawn_server port (record {
  next = pool.next;
  procs = without_old (server_on port pool.servers) pool.procs;
  servers = pool.servers;
})

-- `last_seen` and `seen_conn`
pub record Memory : Type 0 where
  pub last_seen : ℕ → Option ℕ
  pub seen_conn : ℕ → Bool

-- last_seen.pop(port, None); seen_conn.discard(port)
abbrev pub forget : ℕ → Memory → Memory
forget port m = record {
  last_seen = λ q. if port == q then none else m.last_seen q;
  seen_conn = λ q. if port == q then false else m.seen_conn q;
}

-- last_seen[port] = now; seen_conn.add(port)
abbrev pub note : ℕ → ℕ → Memory → Memory
note port now m = record {
  last_seen = λ q. if port == q then some now else m.last_seen q;
  seen_conn = λ q. if port == q then true else m.seen_conn q;
}

-- What one pass reads: which processes have exited, the local ports with an established
-- connection, and the time.
pub record Reading : Type 0 where
  pub exited : ℕ → Bool
  pub established : List ℕ
  pub now : ℕ

-- last_seen.get(port, now)
abbrev pub or_now : ℕ → Option ℕ → ℕ
or_now now none = now
or_now now (some t) = t

-- IPERF_SERVER_RECYCLE_GRACE_S
module _ (grace : ℕ) where
  -- `port in seen_conn and now - last_seen.get(port, now) >= grace`
  abbrev pub is_stuck : Reading → Memory → ℕ → Bool
  is_stuck r m port = m.seen_conn port && leb grace (r.now - or_now r.now (m.last_seen port))

  -- The body of the loop over the servers.
  unfoldable pub check_server : Reading → Pool × Memory → ℕ × ℕ → Pool × Memory
  unfolding recycle_server has_number
  check_server r (pool, m) (port, proc) =
      if r.exited proc
      then (recycle_server port pool, forget port m)
      else (if has_number r.established port
          then (pool, note port r.now m)
          else (if is_stuck r m port then (recycle_server port pool, forget port m) else (pool, m)))

  -- Forget the ports that are no longer in the pool.
  abbrev pub forget_gone : Pool → Memory → Memory
  forget_gone pool m = record {
    last_seen = λ q. elim (server_on q pool.servers) [ none ↦ none | some proc ↦ m.last_seen q ];
    seen_conn = λ q. elim (server_on q pool.servers) [
      | none ↦ elim (m.last_seen q) [ none ↦ m.seen_conn q | some t ↦ false ]
      | some proc ↦ m.seen_conn q
    ];
  }

  -- One pass of `_server_recycler`.
  unfoldable pub recycler_pass : Reading → Pool × Memory → Pool × Memory
  unfolding check_server
  recycler_pass r (pool, m) =
      let checked = foldl (check_server r) (pool, m) pool.servers in
      (checked.0, forget_gone checked.0 checked.1)
