-- ===== src/Worker/Cpu/Single.antt =====
-- The processes that `start_cpu` leaves.
use cloud_native_emulator.Prelude.{
  ℕ, suc, ◌<◌, ◌≡◌, refl, true, false, Bool, Option, none, some, List, [], ◌∷◌, ◌++◌, foldl, arith,
  ◌==◌, Bool-cases, subst, sym, inl, inr, ◌&&◌,
}
use cloud_native_emulator.Prelude.Float.{Float}
use cloud_native_emulator.Prelude.Int.{ℤ}
use cloud_native_emulator.Worker.Cpu.{
  Command, Cpu, cpu_cmd, remove_proc, stop_cpu, spawn_stress, start_cpu, stop_all, Call, call,
  starts, stops, no_less_than_zero, is_running, same_command, same_slice,
}

abbrev pub AreBelow : ℕ → List ℕ → Type 0
AreBelow n [] = Unit
AreBelow n (q ∷ qs) = (q < n) × AreBelow n qs

pub AreBelow-suc : (n : ℕ) (qs : List ℕ) → AreBelow n qs → AreBelow (suc n) qs
AreBelow-suc n [] h = tt
AreBelow-suc n (q ∷ qs) (h, hs) = (omega (arith, h), AreBelow-suc n qs hs)

-- The last process spawned is the one that is removed.
remove_proc_last : (p : ℕ) (qs : List ℕ) → AreBelow p qs → remove_proc (qs ++ (p ∷ [])) p ≡ qs
unfolding remove_proc
remove_proc_last p [] h = ground arith
remove_proc_last p (q ∷ qs) (h, hs) = ground (arith, remove_proc_last p qs hs, h)

pub append_nil : (qs : List ℕ) → qs ++ [] ≡ qs
append_nil [] = refl
append_nil (q ∷ qs) = cc (append_nil qs)

-- The processes of the load for a command: one, spawned after the others, or none.
abbrev pub Stresses : List ℕ → ℕ → List ℕ → Option (Option Command) → Type 0
Stresses others next stress (some (some c)) =
    (p : ℕ) × (stress ≡ p ∷ []) × AreBelow p others × (p < next)
Stresses others next stress (some none) = stress ≡ []
Stresses others next stress none = stress ≡ []

AreBelow-Stresses :
    (others : List ℕ) (next : ℕ) (stress : List ℕ) (cmd : Option (Option Command))
    → AreBelow next others
    → Stresses others next stress cmd
    → foldl remove_proc (others ++ stress) stress ≡ others
AreBelow-Stresses others next stress (some (some c)) h (p, is_p, below, _) =
    subst (λ ps. foldl remove_proc (others ++ ps) ps ≡ others) (sym is_p)
      (remove_proc_last p others below)
AreBelow-Stresses others next stress (some none) h idle =
    subst (λ ps. foldl remove_proc (others ++ ps) ps ≡ others) (sym idle) (append_nil others)
AreBelow-Stresses others next stress none h idle =
    subst (λ ps. foldl remove_proc (others ++ ps) ps ≡ others) (sym idle) (append_nil others)

same_slice-≡ : (s t : Option ℕ) → same_slice s t ≡ true → s ≡ t
same_slice-≡ none none h = refl
same_slice-≡ (some m) (some n) h = ground (arith, h)
same_slice-≡ none (some n) h = cc h
same_slice-≡ (some m) none h = cc h

Command-≡ : (c d : Command) → c.workers ≡ d.workers → c.load ≡ d.load → c.slice ≡ d.slice → c ≡ d
Command-≡ c d w l s = λ i. record { workers = w i; load = l i; slice = s i }

fields_agree : (a b e : Bool) → (a && (b && e)) ≡ true → (a ≡ true) × (b ≡ true) × (e ≡ true)
fields_agree true true true h = (refl, refl, refl)
fields_agree true true false h = cc h
fields_agree true false e h = cc h
fields_agree false b e h = cc h

same_command-≡ : (c d : Option Command) → same_command c d ≡ true → c ≡ d
unfolding same_command
same_command-≡ none none h = refl
same_command-≡ (some c) (some d) h =
    let (w, l, t) : (c.workers == d.workers ≡ true)
        × (c.load == d.load ≡ true)
        × (same_slice c.slice d.slice ≡ true) =
      fields_agree (c.workers == d.workers) (c.load == d.load) (same_slice c.slice d.slice) h in
    cc (Command-≡ c d (ground (arith, w)) (ground (arith, l)) (same_slice-≡ c.slice d.slice t))
same_command-≡ none (some d) h = cc h
same_command-≡ (some c) none h = cc h

is_running-≡ :
    (cmd : Option Command) (r : Option (Option Command)) → is_running cmd r ≡ true → r ≡ some cmd
is_running-≡ cmd none h = cc h
is_running-≡ cmd (some running) h = cc (same_command-≡ cmd running h)

module _ (fl : Float) (ceil_div round_div : fl.F → fl.F → ℤ) where
  abbrev State : Type 0
  State = Cpu fl ceil_div round_div

  -- The processes are others, and one for the command that is set.
  abbrev pub IsTracked : List ℕ → State → Type 0
  IsTracked others s =
      (s.procs ≡ others ++ s.stress)
      × AreBelow s.next others
      × Stresses others s.next s.stress s.stress_cmd

  spawn_stress-IsTracked :
      (others : List ℕ) (cmd : Option Command) (mc : fl.F) (s : State)
      → IsTracked others s
      → IsTracked others
          (spawn_stress fl ceil_div round_div cmd mc (stop_cpu fl ceil_div round_div s))
  unfolding spawn_stress stop_cpu
  spawn_stress-IsTracked others none mc s (ps, below, h) = (
    cc (ps, AreBelow-Stresses others s.next s.stress s.stress_cmd below h, append_nil others),
    below,
    refl,
  )
  spawn_stress-IsTracked others (some c) mc s (ps, below, h) = (
    cc (ps, AreBelow-Stresses others s.next s.stress s.stress_cmd below h),
    AreBelow-suc s.next others below,
    (s.next, refl, below, omega arith),
  )

  spawn_stress-command :
      (cmd : Option Command) (mc : fl.F) (s : State)
      → (spawn_stress fl ceil_div round_div cmd mc s).stress_cmd ≡ some cmd
  unfolding spawn_stress
  spawn_stress-command none mc s = refl
  spawn_stress-command (some c) mc s = refl

  -- `start_cpu` leaves the processes that are not of the load alone, and keeps exactly one
  -- process of the load for a command, spawned after them, and none for no load; the command
  -- that is set is then the one for the amount, whether or not the call had to change anything,
  -- and a call that reports no change made none.
  pub start_cpu-IsTracked :
      (cores slice_ms : ℕ) (mc : fl.F) (others : List ℕ) (s : State)
      → IsTracked others s
      → let r = start_cpu fl ceil_div round_div cores slice_ms mc s in
        IsTracked others r.0
        × (r.0.stress_cmd
            ≡ some (
                cpu_cmd fl ceil_div round_div cores slice_ms
                  (no_less_than_zero fl ceil_div round_div mc)))
        × (r.1 ≡ false → r.0 ≡ s)
  unfolding start_cpu
  start_cpu-IsTracked cores slice_ms mc others s h =
      let some_mc = no_less_than_zero fl ceil_div round_div mc in
      let cmd = cpu_cmd fl ceil_div round_div cores slice_ms some_mc in
      elim (Bool-cases (is_running cmd s.stress_cmd)) [
        | inl running ↦ rw running (h, is_running-≡ cmd s.stress_cmd running, λ _. refl)
        | inr idle ↦ rw idle (
          spawn_stress-IsTracked others cmd some_mc s h,
          spawn_stress-command cmd some_mc (stop_cpu fl ceil_div round_div s),
          λ changed. cc changed,
        )
      ]

  -- Whatever sequence of `start_cpu` and `stop_current` is made, the processes are others and
  -- one for the command that is set, or others only if none is.
  pub calls-IsTracked :
      (cores slice_ms : ℕ) (cs : List (Call fl ceil_div round_div)) (others : List ℕ) (s : State)
      → IsTracked others s
      → (rest : List ℕ) × IsTracked rest (foldl (call fl ceil_div round_div cores slice_ms) s cs)
  unfolding call stop_all
  calls-IsTracked cores slice_ms [] others s h = (others, h)
  calls-IsTracked cores slice_ms (starts mc ∷ cs) others s h =
      calls-IsTracked cores slice_ms cs others
        (start_cpu fl ceil_div round_div cores slice_ms mc s).0
        (start_cpu-IsTracked cores slice_ms mc others s h).0
  calls-IsTracked cores slice_ms (stops ∷ cs) others s h =
      calls-IsTracked cores slice_ms cs [] (stop_all fl ceil_div round_div s) (refl, tt, refl)
