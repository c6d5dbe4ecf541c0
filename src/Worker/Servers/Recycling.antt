-- ===== src/Worker/Servers/Recycling.antt =====
-- One pass of the recycler replaces the servers that it has to, and leaves the others alone.
use cloud_native_emulator.Prelude.{
  ℕ, ◌≤◌, ◌≡◌, inl, inr, refl, sym, ◌∙◌, Bool, true, false, not, ◌&&◌, ◌||◌, none, some, List, [],
  ◌∷◌, foldl, arith, if◌then◌else◌, ◌==◌, has_number, Bool-cases, subst,
}
use cloud_native_emulator.Worker.Servers.{
  Pool, Memory, Reading, server_on, set_server, spawn_server, recycle_server, is_stuck,
  check_server, forget_gone, recycler_pass,
}

pub server_on-set_server :
    (q port proc : ℕ) (servers : List (ℕ × ℕ))
    → server_on q (set_server port proc servers)
      ≡ (if port == q then some proc else server_on q servers)
unfolding server_on set_server
server_on-set_server q port proc [] = refl
server_on-set_server q port proc ((p, old) ∷ rest) =
    ground (arith, server_on-set_server q port proc rest)

server_on-recycle_server :
    (q port : ℕ) (pool : Pool)
    → server_on q (recycle_server port pool).servers
      ≡ (if port == q then some pool.next else server_on q pool.servers)
unfolding recycle_server spawn_server
server_on-recycle_server q port pool = server_on-set_server q port pool.next pool.servers

-- No port is served twice.
abbrev pub HasPortsOnce : List (ℕ × ℕ) → Type 0
HasPortsOnce [] = Unit
HasPortsOnce ((port, proc) ∷ rest) = (server_on port rest ≡ none) × HasPortsOnce rest

module _ (grace : ℕ) (r : Reading) where
  -- A server has to be replaced if its process has exited, or if no connection is established
  -- now, one was seen before, and the last one was seen at least the grace period ago.
  abbrev pub must_recycle : Memory → ℕ → ℕ → Bool
  must_recycle m port proc =
      r.exited proc || (not (has_number r.established port) && is_stuck grace r m port)

  -- What a pass does to the server of one port.
  pub record IsChecked (before after : Pool × Memory) (port proc : ℕ) : Type 0 where
    pub replaced :
        must_recycle before.1 port proc ≡ true
        → (new : ℕ) × (server_on port after.0.servers ≡ some new)
          × (before.0.next ≤ new)
          × (after.1.last_seen port ≡ none)
          × (after.1.seen_conn port ≡ false)
    pub kept :
        must_recycle before.1 port proc ≡ false
        → (server_on port after.0.servers ≡ some proc)
          × (after.1.last_seen port
              ≡ (if has_number r.established port then some r.now else before.1.last_seen port))
          × (after.1.seen_conn port ≡ (has_number r.established port || before.1.seen_conn port))

  -- What happens to the other ports: nothing.
  abbrev Untouched : Pool × Memory → Pool × Memory → ℕ → Type 0
  Untouched before after q =
      (server_on q after.0.servers ≡ server_on q before.0.servers)
      × (after.1.last_seen q ≡ before.1.last_seen q)
      × (after.1.seen_conn q ≡ before.1.seen_conn q)

  check_server-next :
      (pool : Pool) (m : Memory) (port proc : ℕ)
      → pool.next ≤ (check_server grace r (pool, m) (port, proc)).0.next
  unfolding check_server recycle_server spawn_server
  check_server-next pool m port proc = ground arith

  check_server-Untouched :
      (pool : Pool) (m : Memory) (port proc q : ℕ)
      → (port == q) ≡ false
      → Untouched (pool, m) (check_server grace r (pool, m) (port, proc)) q
  unfolding check_server
  check_server-Untouched pool m port proc q other =
      ground (arith, server_on-recycle_server q port pool, other)

  check_server-IsChecked :
      (pool : Pool) (m : Memory) (port proc : ℕ)
      → server_on port pool.servers ≡ some proc
      → IsChecked (pool, m) (check_server grace r (pool, m) (port, proc)) port proc
  unfolding check_server
  check_server-IsChecked pool m port proc at = record {
    replaced = λ must. (
      pool.next,
      ground (arith, server_on-recycle_server port port pool, must),
      omega arith,
      ground (arith, must),
      ground (arith, must),
    );
    kept = λ spare. (ground (arith, at, spare), ground (arith, spare), ground (arith, spare));
  }

  Untouched-trans :
      (a b c : Pool × Memory) (q : ℕ) → Untouched a b q → Untouched b c q → Untouched a c q
  Untouched-trans a b c q (s, l, n) (s', l', n') = (s' ∙ s, l' ∙ l, n' ∙ n)

  checks-Untouched :
      (es : List (ℕ × ℕ)) (st : Pool × Memory) (q : ℕ)
      → server_on q es ≡ none
      → Untouched st (foldl (check_server grace r) st es) q
  unfolding server_on
  checks-Untouched [] st q out = (refl, refl, refl)
  checks-Untouched ((port, proc) ∷ es) (pool, m) q out =
      let other : (port == q) ≡ false = ground (arith, out) in
      let next = check_server grace r (pool, m) (port, proc) in
      Untouched-trans (pool, m) next (foldl (check_server grace r) next es) q
        (check_server-Untouched pool m port proc q other)
        (checks-Untouched es next q (ground (arith, out, other)))

  IsChecked-then :
      (a b c : Pool × Memory) (port proc : ℕ)
      → IsChecked a b port proc
      → Untouched b c port
      → IsChecked a c port proc
  IsChecked-then a b c port proc done (s, l, n) = record {
    replaced = λ must.
        let (new, at, fresh, last, seen) = done.replaced must in
        (new, s ∙ at, fresh, l ∙ last, n ∙ seen);
    kept = λ spare. let (at, last, seen) = done.kept spare in (s ∙ at, l ∙ last, n ∙ seen);
  }

  must_recycle-Untouched :
      (a b : Pool × Memory) (port proc : ℕ)
      → Untouched a b port
      → must_recycle b.1 port proc ≡ must_recycle a.1 port proc
  must_recycle-Untouched a b port proc (s, l, n) = rw (l, n) refl

  then-IsChecked :
      (a b c : Pool × Memory) (port proc : ℕ)
      → Untouched a b port
      → a.0.next ≤ b.0.next
      → IsChecked b c port proc
      → IsChecked a c port proc
  then-IsChecked a b c port proc same grows done =
      let musts = must_recycle-Untouched a b port proc same in
      record {
        replaced = λ must.
            let (new, at, fresh, last, seen) = done.replaced (musts ∙ must) in
            (new, at, omega (arith, fresh, grows), last, seen);
        kept = λ spare.
            let (at, last, seen) = done.kept (musts ∙ spare) in
            (at, last ∙ rw same.1 refl, seen ∙ rw same.2 refl);
      }

  checks-IsChecked :
      (es : List (ℕ × ℕ)) (st : Pool × Memory) (port proc : ℕ)
      → HasPortsOnce es
      → server_on port es ≡ some proc
      → server_on port st.0.servers ≡ some proc
      → IsChecked st (foldl (check_server grace r) st es) port proc
  unfolding server_on
  checks-IsChecked [] st port proc once found at = cc
  checks-IsChecked ((p, s) ∷ es) (pool, m) port proc (new, once) found at =
      elim (Bool-cases (p == port)) [
        | inl same ↦
            let same_port : p ≡ port = ground (arith, same) in
            let same_proc : s ≡ proc = ground (arith, found, same) in
            let first = check_server grace r (pool, m) (port, proc) in
            subst
              (λ e.
                IsChecked (pool, m)
                  (foldl (check_server grace r) (check_server grace r (pool, m) e) es) port proc)
              (λ i. (sym same_port i, sym same_proc i))
              (IsChecked-then (pool, m) first (foldl (check_server grace r) first es) port proc
                (check_server-IsChecked pool m port proc at)
                (checks-Untouched es first port (subst (λ q. server_on q es ≡ none) same_port new)))
        | inr other ↦
            let next = check_server grace r (pool, m) (p, s) in
            let (s', l, n) = check_server-Untouched pool m p s port other in
            then-IsChecked (pool, m) next (foldl (check_server grace r) next es) port proc
              (s', l, n) (check_server-next pool m p s)
              (checks-IsChecked es next port proc once (ground (arith, found, other)) (s' ∙ at))
      ]

  forget_gone-IsChecked :
      (before after : Pool × Memory) (port proc : ℕ)
      → IsChecked before after port proc
      → IsChecked before (after.0, forget_gone grace after.0 after.1) port proc
  forget_gone-IsChecked before after port proc done = record {
    replaced = λ must.
        let (new, at, fresh, last, seen) = done.replaced must in
        (new, at, fresh, ground (arith, at, last), ground (arith, at, seen));
    kept = λ spare.
        let (at, last, seen) = done.kept spare in
        (at, ground (arith, at, last), ground (arith, at, seen));
  }

  -- A pass of the recycler over a pool in which no port is served twice: the server of a port
  -- whose process has exited, or which has been without a connection for the grace period after
  -- it had one, is replaced by a newly spawned one and its history is forgotten; any other
  -- server, one with a live connection or one that never had a client included, goes on, and a
  -- live connection is noted.
  pub recycler_pass-IsChecked :
      (pool : Pool) (m : Memory) (port proc : ℕ)
      → HasPortsOnce pool.servers
      → server_on port pool.servers ≡ some proc
      → IsChecked (pool, m) (recycler_pass grace r (pool, m)) port proc
  unfolding recycler_pass
  recycler_pass-IsChecked pool m port proc once at =
      forget_gone-IsChecked (pool, m) (foldl (check_server grace r) (pool, m) pool.servers) port
        proc (checks-IsChecked pool.servers (pool, m) port proc once at at)

  -- A port has been seen with a connection exactly if there is a time at which it was seen.
  abbrev pub IsConsistent : Memory → Type 0
  IsConsistent m = (q : ℕ) → m.seen_conn q ≡ elim (m.last_seen q) [ none ↦ false | some t ↦ true ]

  check_server-IsConsistent :
      (st : Pool × Memory) (e : ℕ × ℕ)
      → IsConsistent st.1
      → IsConsistent (check_server grace r st e).1
  unfolding check_server
  check_server-IsConsistent (pool, m) (port, proc) agrees q = ground (arith, agrees q)

  checks-IsConsistent :
      (es : List (ℕ × ℕ)) (st : Pool × Memory)
      → IsConsistent st.1
      → IsConsistent (foldl (check_server grace r) st es).1
  checks-IsConsistent [] st agrees = agrees
  checks-IsConsistent (e ∷ es) st agrees =
      checks-IsConsistent es (check_server grace r st e) (check_server-IsConsistent st e agrees)

  forget_gone-IsConsistent :
      (pool : Pool) (m : Memory)
      → IsConsistent m
      → IsConsistent (forget_gone grace pool m)
        × ((q : ℕ)
            → server_on q pool.servers ≡ none
            → (forget_gone grace pool m).seen_conn q ≡ false)
  forget_gone-IsConsistent pool m agrees =
      (λ q. ground (arith, agrees q), λ q gone. ground (arith, agrees q, gone))

  -- The recycler's two dicts agree on which ports have had a connection, after every pass, and
  -- neither knows a port that is not in the pool.
  pub recycler_pass-IsConsistent :
      (pool : Pool) (m : Memory)
      → IsConsistent m
      → IsConsistent (recycler_pass grace r (pool, m)).1
        × ((q : ℕ)
            → server_on q (recycler_pass grace r (pool, m)).0.servers ≡ none
            → (recycler_pass grace r (pool, m)).1.seen_conn q ≡ false)
  unfolding recycler_pass
  recycler_pass-IsConsistent pool m agrees =
      let checked = foldl (check_server grace r) (pool, m) pool.servers in
      forget_gone-IsConsistent checked.0 checked.1
        (checks-IsConsistent pool.servers (pool, m) agrees)
