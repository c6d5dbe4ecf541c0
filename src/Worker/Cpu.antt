-- ===== src/Worker/Cpu.antt =====
-- worker/loads.py, the CPU load: `_cpu_cmd`, `stop_cpu`, `start_cpu`, and what `stop_current` does
-- to them. Processes are numbered in the order in which they are spawned; a process that is
-- signalled and waited for, or killed, is gone.
pub mod Bounds
pub mod Single
mod Tests
use cloud_native_emulator.Prelude.{
  ℕ, suc, ◌+◌, ◌*◌, String, Bool, true, false, ◌&&◌, Option, none, some, List, [], ◌∷◌, ◌++◌, foldl,
  if◌then◌else◌, ltb, leb, ◌==◌,
}
use cloud_native_emulator.Prelude.Float.{Float}
use cloud_native_emulator.Prelude.Int.{ℤ, pos, negsuc, pos_part}

-- The arguments of stress-ng: --cpu, --cpu-load, and --cpu-load-slice where it is given.
pub record Command : Type 0 where
  pub workers : ℕ
  pub load : ℕ
  pub slice : Option ℕ

abbrev pub same_slice : Option ℕ → Option ℕ → Bool
same_slice none none = true
same_slice (some m) (some n) = m == n
same_slice s t = false

-- Whether two commands, or no load, are equal.
unfoldable pub same_command : Option Command → Option Command → Bool
same_command none none = true
same_command (some c) (some d) =
    c.workers == d.workers && (c.load == d.load && same_slice c.slice d.slice)
same_command c d = false

-- `cmd == CPU_STRESS_CMD`
abbrev pub is_running : Option Command → Option (Option Command) → Bool
is_running cmd none = false
is_running cmd (some running) = same_command cmd running

-- max(1, n), and min(100, n) after it
abbrev pub at_least_one : ℤ → ℕ
at_least_one n = if leb 1 (pos_part n) then pos_part n else 1

abbrev pub to_percent : ℤ → ℕ
to_percent n = if leb (at_least_one n) 100 then at_least_one n else 100

-- PROCS.remove(p), for each p
unfoldable pub remove_proc : List ℕ → ℕ → List ℕ
remove_proc [] p = []
remove_proc (q ∷ qs) p = if q == p then qs else q ∷ remove_proc qs p

-- The divisions of `_cpu_cmd` with their rounding: math.ceil(a / b) and int(round(a / b)).
module _ (fl : Float) (ceil_div round_div : fl.F → fl.F → ℤ) where
  open fl use {F, of_int, less}

  -- max(0.0, millicores)
  abbrev pub no_less_than_zero : F → F
  no_less_than_zero v = if less (of_int (pos 0)) v then v else of_int (pos 0)

  -- min(millicores, cores * 1000.0)
  abbrev pub capped : ℕ → F → F
  capped cores mc =
      if less (of_int (pos (cores * 1000))) mc then of_int (pos (cores * 1000)) else mc

  -- The command for an amount that is positive and capped.
  unfoldable pub command_for : ℕ → F → Command
  command_for slice_ms mc =
      let workers = at_least_one (ceil_div mc (of_int (pos 1000))) in
      let load = to_percent (round_div mc (of_int (pos (10 * workers)))) in
      record {
        workers = workers;
        load = load;
        slice = if ltb 0 slice_ms && ltb load 100 then some slice_ms else none;
      }

  -- `_cpu_cmd`, with the number of cores and CPU_LOAD_SLICE_MS. That the amount is positive
  -- is read as `0 < millicores`: they differ on not a number only, which `start_cpu` turns into
  -- zero.
  unfoldable pub cpu_cmd : ℕ → ℕ → F → Option Command
  unfolding command_for
  cpu_cmd cores slice_ms mc =
      if less (of_int (pos 0)) mc then some (command_for slice_ms (capped cores mc)) else none

  -- PROCS, STRESS_PROCS, CPU_STRESS_MC, and CPU_STRESS_CMD (`none` where it is unset); `next`
  -- numbers the next process.
  pub record Cpu : Type 0 where
    pub next : ℕ
    pub procs : List ℕ
    pub stress : List ℕ
    pub stress_mc : F
    pub stress_cmd : Option (Option Command)

  -- `stop_cpu`
  unfoldable pub stop_cpu : Cpu → Cpu
  unfolding remove_proc
  stop_cpu s = record {
    next = s.next;
    procs = foldl remove_proc s.procs s.stress;
    stress = [];
    stress_mc = of_int (pos 0);
    stress_cmd = s.stress_cmd;
  }

  -- The end of `start_cpu`: spawn the command, if there is one.
  unfoldable pub spawn_stress : Option Command → F → Cpu → Cpu
  spawn_stress none mc s = record {
    next = s.next;
    procs = s.procs;
    stress = s.stress;
    stress_mc = mc;
    stress_cmd = some none;
  }
  spawn_stress (some c) mc s = record {
    next = suc s.next;
    procs = s.procs ++ (s.next ∷ []);
    stress = s.stress ++ (s.next ∷ []);
    stress_mc = mc;
    stress_cmd = some (some c);
  }

  -- `start_cpu`, and whether it changed anything
  unfoldable pub start_cpu : ℕ → ℕ → F → Cpu → Cpu × Bool
  unfolding cpu_cmd stop_cpu spawn_stress same_command
  start_cpu cores slice_ms mc s =
      let cmd = cpu_cmd cores slice_ms (no_less_than_zero mc) in
      if is_running cmd s.stress_cmd
      then (s, false)
      else (spawn_stress cmd (no_less_than_zero mc) (stop_cpu s), true)

  -- What `stop_current` does here: no process is left, and the command is unset.
  unfoldable pub stop_all : Cpu → Cpu
  stop_all s = record {
    next = s.next;
    procs = [];
    stress = [];
    stress_mc = of_int (pos 0);
    stress_cmd = none;
  }

  pub data Call : Type 0 where
    starts : F → Call
    stops : Call

  unfoldable pub call : ℕ → ℕ → Cpu → Call → Cpu
  unfolding start_cpu stop_all
  call cores slice_ms s (starts mc) = (start_cpu cores slice_ms mc s).0
  call cores slice_ms s stops = stop_all s
