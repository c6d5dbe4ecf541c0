-- ===== src/Worker/Cpu/Tests.antt =====
-- The CPU load on two cores, in whole millicores, beside a pool of two servers.
use cloud_native_emulator.Prelude.{
  ◌+◌, ◌-◌, ◌*◌, ◌/◌, ◌≡◌, refl, true, false, none, some, [], ◌∷◌, arith,
}
use cloud_native_emulator.Prelude.Int.{ℤ, pos, pos_part}
use cloud_native_emulator.Samples.{whole}
use cloud_native_emulator.Worker.Cpu.{
  Command, Cpu, cpu_cmd, command_for, start_cpu, stop_cpu, spawn_stress, remove_proc, same_command,
  stop_all, no_less_than_zero, call,
}
use cloud_native_emulator.Worker.Cpu.Single.{IsTracked, start_cpu-IsTracked}

abbrev ceil_div : ℤ → ℤ → ℤ
ceil_div a b = pos ((pos_part a + pos_part b - 1) / pos_part b)

abbrev round_div : ℤ → ℤ → ℤ
round_div a b = pos ((2 * pos_part a + pos_part b) / (2 * pos_part b))

program : Unit {0}
unfolding command_for cpu_cmd remove_proc stop_cpu spawn_stress same_command start_cpu stop_all call
program = tt

abbrev busy : Command
busy = record { workers = 2; load = 75; slice = some 50 }

cpu_cmd-full :
    cpu_cmd whole ceil_div round_div 2 50 (pos 9000)
    ≡ some (record { workers = 2; load = 100; slice = none })
unfolding program
cpu_cmd-full = refl

abbrev servers_only : Cpu whole ceil_div round_div
servers_only = record {
  next = 2;
  procs = 0 ∷ 1 ∷ [];
  stress = [];
  stress_mc = pos 0;
  stress_cmd = none;
}

servers_only-IsTracked : IsTracked whole ceil_div round_div (0 ∷ 1 ∷ []) servers_only
servers_only-IsTracked = (refl, (ground arith, (ground arith, tt)), refl)

abbrev loaded : Cpu whole ceil_div round_div
loaded = record {
  next = 3;
  procs = 0 ∷ 1 ∷ 2 ∷ [];
  stress = 2 ∷ [];
  stress_mc = pos 1500;
  stress_cmd = some (some busy);
}

start_cpu-loaded : start_cpu whole ceil_div round_div 2 50 (pos 1500) servers_only ≡ (loaded, true)
unfolding program
start_cpu-loaded = refl

start_cpu_again : start_cpu whole ceil_div round_div 2 50 (pos 1501) loaded ≡ (loaded, false)
unfolding program
start_cpu_again = refl

start_cpu-IsTracked_example :
    let r = start_cpu whole ceil_div round_div 2 50 (pos 1500) servers_only in
    IsTracked whole ceil_div round_div (0 ∷ 1 ∷ []) r.0
    × (r.0.stress_cmd
        ≡ some (
            cpu_cmd whole ceil_div round_div 2 50
              (no_less_than_zero whole ceil_div round_div (pos 1500))))
    × (r.1 ≡ false → r.0 ≡ servers_only)
start_cpu-IsTracked_example =
    start_cpu-IsTracked whole ceil_div round_div 2 50 (pos 1500) (0 ∷ 1 ∷ []) servers_only
      servers_only-IsTracked
