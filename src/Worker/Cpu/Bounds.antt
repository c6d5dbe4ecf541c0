-- ===== src/Worker/Cpu/Bounds.antt =====
-- The commands of `_cpu_cmd` are ones that stress-ng takes.
use cloud_native_emulator.Prelude.{ℕ, ◌*◌, false, ◌≤◌, ◌<◌, ◌≡◌, some}
use cloud_native_emulator.Prelude.Float.{Float}
use cloud_native_emulator.Prelude.Int.{ℤ, pos, pos_part}
use cloud_native_emulator.Worker.Cpu.{Command}

-- The smallest number of workers is one and the load is a percentage; a slice is given only
-- below 100, as the setting says.
abbrev pub IsSound : ℕ → Command → Type 0
IsSound slice_ms c =
    (1 ≤ c.workers)
    × (1 ≤ c.load)
    × (c.load ≤ 100)
    × ((s : ℕ) → c.slice ≡ some s → (s ≡ slice_ms) × (0 < s) × (c.load < 100))

-- math.ceil(v / 1000) of an amount of at most n thousands is at most n.
abbrev pub IsCeiling : (fl : Float) → (fl.F → fl.F → ℤ) → Type 0
IsCeiling fl ceil_div =
    (n : ℕ) (v : fl.F)
    → fl.less (fl.of_int (pos (n * 1000))) v ≡ false
    → pos_part (ceil_div v (fl.of_int (pos 1000))) ≤ n
