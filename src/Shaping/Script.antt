-- ===== src/Shaping/Script.antt =====
-- What a script asks tc for: each peer's traffic goes to a class of its own, with the rate and
-- the delay of the link.
use cloud_native_emulator.Prelude.{
  ℕ, ◌+◌, ◌*◌, ◌⊎◌, inl, inr, sym, ◌==◌, Bool-cases, ◌≤◌, ◌<◌, ◌≡◌, refl, String, Option, none,
  some, false, List, [], ◌∷◌, ◌++◌, arith, text_dec, length, All, All-map_of, subst,
}
use cloud_native_emulator.Prelude.Float.{Float}
use cloud_native_emulator.Prelude.Result.{ok, >>=-eq-ok}
use cloud_native_emulator.Prelude.Sets.{contains, IsNodup}
use cloud_native_emulator.Shaping.{
  Rate, Command, find_interface, need_interface, clear_root, add_root, add_class, add_filter, Peer,
  delay_commands, class_rate, shape_peers, shape_script, default_class, unshaped,
}
use cloud_native_emulator.Shaping.Lines.{
  class_rates, class_delays, filters_to, delay_list, delay_list-IsDelay, IsDelay, handle_list,
  class_handles, class_handles-delay, class_handles-own, ips, class_rates-delay, filters_to-delay,
  class_delays-delay, class_delays-own,
}

module _ (fl : Float) where
  open fl use {F}

  -- The class of a peer's own, between two numbers.
  pub record IsShaped (script : List Command) (low high : ℕ) (p : Peer F) : Type 0 where
    pub class_id : ℕ
    pub from_low : low ≤ class_id
    pub below_high : class_id < high
    pub filtered : filters_to script p.ip ≡ class_id ∷ []
    pub rate : Rate
    pub rate_read : class_rate fl p.rate ≡ ok rate
    pub rated : class_rates script class_id ≡ rate ∷ []
    pub delayed : class_delays script class_id ≡ delay_list fl p.delay_us
    pub handled : class_handles script class_id ≡ handle_list fl class_id p.delay_us

  shape_peers-below :
      (ps : List (Peer F)) (cid : ℕ) {lines : List Command}
      → shape_peers fl cid ps ≡ ok lines
      → (c : ℕ) → c < cid
      → (class_rates lines c ≡ []) × (class_delays lines c ≡ []) × (class_handles lines c ≡ [])
  unfolding shape_peers
  shape_peers-below [] cid {lines} h c low =
      let same : [] ≡ lines = cc in rw (← same) (refl, refl, refl)
  shape_peers-below (p ∷ ps) cid {lines} h c low =
      let (rate, read, h1) = >>=-eq-ok (class_rate fl p.rate) _ h in
      let (rest, more, h2) = >>=-eq-ok (shape_peers fl (cid + 1) ps) _ h1 in
      let tail : List Command = add_filter p.ip cid ∷ rest in
      let same : add_class cid rate ∷ delay_commands fl cid p.delay_us ++ tail ≡ lines = cc in
      let (no_rate, no_delay, no_handle) =
        shape_peers-below ps (cid + 1) more c (omega (arith, low)) in
      rw (← same) (
        ground (arith, class_rates-delay fl cid tail p.delay_us c, no_rate, low),
        ground (arith, class_delays-delay fl cid tail p.delay_us c, no_delay, low),
        ground (arith, class_handles-delay fl cid tail p.delay_us c, no_handle, low),
      )

  shape_peers-others :
      (ps : List (Peer F)) (cid : ℕ) {lines : List Command}
      → shape_peers fl cid ps ≡ ok lines
      → (a : String) → contains (ips ps) a ≡ false
      → filters_to lines a ≡ []
  unfolding shape_peers contains
  shape_peers-others [] cid {lines} h a out = let same : [] ≡ lines = cc in rw (← same) refl
  shape_peers-others (p ∷ ps) cid {lines} h a out =
      let (rate, read, h1) = >>=-eq-ok (class_rate fl p.rate) _ h in
      let (rest, more, h2) = >>=-eq-ok (shape_peers fl (cid + 1) ps) _ h1 in
      let tail : List Command = add_filter p.ip cid ∷ rest in
      let same : add_class cid rate ∷ delay_commands fl cid p.delay_us ++ tail ≡ lines = cc in
      rw (← same) (
        ground (
          arith,
          filters_to-delay fl cid tail p.delay_us a,
          shape_peers-others ps (cid + 1) more a,
          text_dec p.ip a,
          out,
        ))

  -- A line that comes first changes nothing for a later class and another address.
  IsShaped-later :
      (p q : Peer F) (cid : ℕ) (rate : Rate) (rest : List Command) (high : ℕ)
      → IsShaped rest (cid + 1) high q
      → ¬ (p.ip ≡ q.ip)
      → IsShaped
          (add_class cid rate ∷ delay_commands fl cid p.delay_us ++ (add_filter p.ip cid ∷ rest))
          cid
          high
          q
  IsShaped-later p q cid rate rest high s differ =
      let tail : List Command = add_filter p.ip cid ∷ rest in
      record {
        class_id = s.class_id;
        from_low = omega (arith, s.from_low);
        below_high = s.below_high;
        filtered = ground (
          arith,
          filters_to-delay fl cid tail p.delay_us q.ip,
          s.filtered,
          text_dec p.ip q.ip,
          differ,
        );
        rate = s.rate;
        rate_read = s.rate_read;
        rated =
            ground
              (arith, class_rates-delay fl cid tail p.delay_us s.class_id, s.rated, s.from_low);
        delayed =
            ground
              (arith, class_delays-delay fl cid tail p.delay_us s.class_id, s.delayed, s.from_low);
        handled =
            ground
              (arith, class_handles-delay fl cid tail p.delay_us s.class_id, s.handled, s.from_low);
      }

  All-later :
      (p : Peer F) (ps : List (Peer F)) (cid : ℕ) (rate : Rate) (rest : List Command) (high : ℕ)
      → contains (ips ps) p.ip ≡ false
      → All (IsShaped rest (cid + 1) high) ps
      → All
          (IsShaped
            (add_class cid rate ∷ delay_commands fl cid p.delay_us ++ (add_filter p.ip cid ∷ rest))
            cid
            high)
          ps
  unfolding contains
  All-later p [] cid rate rest high out all = tt
  All-later p (q ∷ ps) cid rate rest high out (s, all) = (
    IsShaped-later p q cid rate rest high s (λ e. ground (arith, out, text_dec q.ip p.ip, e)),
    All-later p ps cid rate rest high (ground (arith, out, text_dec q.ip p.ip)) all,
  )

  shape_peers-IsShaped :
      (ps : List (Peer F)) (cid : ℕ) {lines : List Command}
      → IsNodup (ips ps)
      → shape_peers fl cid ps ≡ ok lines
      → All (IsShaped lines cid (cid + length ps)) ps
  unfolding shape_peers
  shape_peers-IsShaped [] cid once h = tt
  shape_peers-IsShaped (p ∷ ps) cid {lines} once h =
      let (rate, read, h1) = >>=-eq-ok (class_rate fl p.rate) _ h in
      let (rest, more, h2) = >>=-eq-ok (shape_peers fl (cid + 1) ps) _ h1 in
      let tail : List Command = add_filter p.ip cid ∷ rest in
      let same : add_class cid rate ∷ delay_commands fl cid p.delay_us ++ tail ≡ lines = cc in
      let (no_rate, no_delay, no_handle) = shape_peers-below ps (cid + 1) more cid (omega arith) in
      let none_else = shape_peers-others ps (cid + 1) more p.ip once.0 in
      let sum : (cid + 1) + length ps ≡ cid + length (p ∷ ps) = omega arith in
      subst (λ ls. All (IsShaped ls cid (cid + length (p ∷ ps))) (p ∷ ps)) same
        (
          record {
            class_id = cid;
            from_low = omega arith;
            below_high = omega arith;
            filtered = ground (
              arith,
              filters_to-delay fl cid tail p.delay_us p.ip,
              none_else,
              text_dec p.ip p.ip,
            );
            rate = rate;
            rate_read = read;
            rated = ground (arith, class_rates-delay fl cid tail p.delay_us cid, no_rate);
            delayed = class_delays-own fl cid tail p.delay_us no_delay;
            handled = class_handles-own fl cid tail p.delay_us no_handle;
          },
          All-later p ps cid rate rest (cid + length (p ∷ ps)) once.0 (
              subst (λ n. All (IsShaped rest (cid + 1) n) ps) sum
                (shape_peers-IsShaped ps (cid + 1) once.1 more)),
        )

  -- The lines that come before the peers' own.
  abbrev preamble : String → List Command → List Command
  preamble ip lines =
      find_interface ip
      ∷ need_interface
      ∷ clear_root
      ∷ add_root default_class
      ∷ add_class default_class unshaped
      ∷ lines

  IsShaped-preamble :
      (ip : String) (lines : List Command) (high : ℕ) (p : Peer F)
      → high ≤ default_class
      → IsShaped lines 10 high p
      → IsShaped (preamble ip lines) 10 high p
  IsShaped-preamble ip lines high p room s = record {
    class_id = s.class_id;
    from_low = s.from_low;
    below_high = s.below_high;
    filtered = s.filtered;
    rate = s.rate;
    rate_read = s.rate_read;
    rated = ground (arith, s.rated, s.below_high, room);
    delayed = s.delayed;
    handled = s.handled;
  }

  shape_peers_total :
      (ps : List (Peer F)) (cid : ℕ)
      → All (λ p. (rate : Rate) × (class_rate fl p.rate ≡ ok rate)) ps
      → (lines : List Command) × (shape_peers fl cid ps ≡ ok lines)
  unfolding shape_peers
  shape_peers_total [] cid h = ([], refl)
  shape_peers_total (p ∷ ps) cid ((rate, read), h) =
      let (rest, ran) = shape_peers_total ps (cid + 1) h in
      (
        add_class cid rate ∷ delay_commands fl cid p.delay_us ++ (add_filter p.ip cid ∷ rest),
        rw (read, ran) refl,
      )

  -- The digits of each handle are a qdisc number that tc takes: four of them at most, which it
  -- reads in base 16, and not the root's. (Different classes have different handles.)
  abbrev pub IsHandle : ℕ → Option ℕ → List ℕ → Type 0
  IsHandle c none handles = handles ≡ []
  IsHandle c (some us) handles =
      ((us ≡ 0) × (handles ≡ []))
      ⊎ ((handle : ℕ) × (handles ≡ handle ∷ [])
          × (handle ≡ c * 10)
          × (1 < handle)
          × (handle < 10000))

  handle_list-IsHandle :
      (c : ℕ) (d : Option ℕ) → 10 ≤ c → c < 1000 → IsHandle c d (handle_list fl c d)
  handle_list-IsHandle c none low high = refl
  handle_list-IsHandle c (some us) low high = elim (Bool-cases (us == 0)) [
    | inl zero_delay ↦ inl (ground arith, rw zero_delay refl)
    | inr positive ↦ inr (c * 10, rw positive refl, refl, omega (arith, low), omega (arith, high))
  ]

  -- The class of a peer's own in a finished script.
  pub record IsLinked (script : List Command) (p : Peer F) : Type 0 where
    pub class_id : ℕ
    pub filtered : filters_to script p.ip ≡ class_id ∷ []
    pub rate : Rate
    pub rate_read : class_rate fl p.rate ≡ ok rate
    pub rated : class_rates script class_id ≡ rate ∷ []
    pub delayed : IsDelay p.delay_us (class_delays script class_id)
    pub handled : IsHandle class_id p.delay_us (class_handles script class_id)

  IsShaped-IsLinked :
      (script : List Command) (high : ℕ) (p : Peer F)
      → high ≤ 1000
      → IsShaped script 10 high p
      → IsLinked script p
  IsShaped-IsLinked script high p room s = record {
    class_id = s.class_id;
    filtered = s.filtered;
    rate = s.rate;
    rate_read = s.rate_read;
    rated = s.rated;
    delayed = subst (IsDelay p.delay_us) (sym s.delayed) (delay_list-IsDelay fl p.delay_us);
    handled =
        subst (IsHandle s.class_id p.delay_us) (sym s.handled) (
          handle_list-IsHandle s.class_id p.delay_us s.from_low
            (omega (arith, s.below_high, room)));
  }

  -- For at most 990 peers with distinct addresses and rates that can be read, the script is made.
  -- In it the traffic to each peer goes to exactly one class. That class gets exactly one rate,
  -- the link's (or the unshaped one where the link has none). It gets no delay if the link has
  -- none or 0, and otherwise exactly one: the link's below a second, and the link's within 5
  -- microseconds below ten seconds (within 50 from there on), since six digits are shown; and the
  -- handle of that delay has four digits at most.
  pub shape_script-IsLinked :
      (ip : String) (peers : List (Peer F))
      → IsNodup (ips peers)
      → length peers ≤ 990
      → All (λ p. (rate : Rate) × (class_rate fl p.rate ≡ ok rate)) peers
      → (script : List Command) × (shape_script fl ip peers ≡ ok script)
        × All (IsLinked script) peers
  unfolding shape_script
  shape_script-IsLinked ip peers once room readable =
      let (lines, ran) = shape_peers_total peers 10 readable in
      let high = 10 + length peers in
      (
        preamble ip lines,
        rw ran refl,
        All-map_of _ _ peers
            (λ p s.
              IsShaped-IsLinked (preamble ip lines) high p (omega (arith, room))
                (IsShaped-preamble ip lines high p (omega (arith, room)) s))
            (shape_peers-IsShaped peers 10 once ran),
      )
