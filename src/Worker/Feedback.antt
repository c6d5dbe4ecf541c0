-- ===== src/Worker/Feedback.antt =====
-- worker/metrics.py, `_adjust_ram` and `_adjust_cpu`: the steps of the feedback, on the worker's
-- state and a reading of what the pod uses.
pub mod Steady
mod Tests
use cloud_native_emulator.Prelude.{
  ℕ, Bool, true, false, not, ◌&&◌, ◌||◌, Option, none, some, List, [], ◌∷◌, if◌then◌else◌,
}
use cloud_native_emulator.Prelude.Float.{Float}
use cloud_native_emulator.Prelude.Int.{ℤ, pos, negsuc}
use cloud_native_emulator.Prelude.Result.{Result, Error, ok, err}
use cloud_native_emulator.Worker.Config.{Setup}
use cloud_native_emulator.Worker.Cpu.{start_cpu}
use cloud_native_emulator.Worker.Network.{Worker, Environment, cpu_of, with_cpu}
use cloud_native_emulator.Worker.Ram.{start_ram}

-- RAM_TOLERANCE_MB, CPU_TOLERANCE_MC, CPU_TOLERANCE_FRAC and CPU_GAIN; `megabytes` divides a
-- number of bytes by 1024 * 1024.
pub record Tuning (fl : Float) : Type 0 where
  pub ram_tolerance : fl.F
  pub cpu_tolerance : fl.F
  pub cpu_fraction : fl.F
  pub cpu_gain : fl.F
  pub megabytes : ℕ → fl.F

-- A measure of the working set in MB, with the sizes that mmap refuses by then, or of the CPU in
-- millicores.
pub data Measure (F : Type 0) : Type 0 where
  ram_reading : F → (ℕ → Option Error) → Measure F
  cpu_reading : F → Measure F

module _ (fl : Float) where
  open fl use {F, of_int, add, mul, less, equal}

  -- a - b, which is a + -1 * b
  abbrev pub minus : F → F → F
  minus a b = add a (mul (of_int (negsuc 0)) b)

  abbrev pub is_at_most : F → F → Bool
  is_at_most a b = less a b || equal a b

  -- abs(v), and max(a, b)
  abbrev pub absolute : F → F
  absolute v = if less v (of_int (pos 0)) then mul (of_int (negsuc 0)) v else v

  abbrev pub larger : F → F → F
  larger a b = if less a b then b else a

  -- len(buf) / (1024 * 1024) if buf is not None else 0.0
  abbrev pub buffer_mb : Tuning fl → Option ℕ → F
  buffer_mb tuning none = of_int (pos 0)
  buffer_mb tuning (some n) = tuning.megabytes n

  -- new_mb of `_adjust_ram`, unless it returns before.
  abbrev pub new_mb : Tuning fl → Setup F → F → Option ℕ → Option F
  new_mb tuning s actual buffer =
      let error = minus s.ram_mb actual in
      if is_at_most s.ram_mb (of_int (pos 0))
      then none
      else (if is_at_most (absolute error) tuning.ram_tolerance
          then none
          else some (larger (of_int (pos 0)) (add (buffer_mb tuning buffer) error)))

  -- The old buffer is gone also where start_ram raises.
  abbrev pub with_buffer : Worker F → Result (Option ℕ) → Worker F × Result (Unit {0})
  with_buffer w (ok buffer) = (record w { ram = buffer }, ok tt)
  with_buffer w (err why) = (record w { ram = none }, err why)

  abbrev pub resize : (ℕ → Option Error) → Option F → Worker F → Worker F × Result (Unit {0})
  unfolding start_ram
  resize refuses none w = (w, ok tt)
  resize refuses (some mb) w = with_buffer w (start_ram fl refuses mb)

  -- `_adjust_ram`: what it leaves, and whether it raised
  abbrev pub adjust_ram :
      Tuning fl
      → F
      → (ℕ → Option Error)
      → Worker F
      → Option (Setup F)
      → Worker F × Result (Unit {0})
  unfolding resize
  adjust_ram tuning actual refuses w none = (w, ok tt)
  adjust_ram tuning actual refuses w (some s) = resize refuses (new_mb tuning s actual w.ram) w

  -- new_stress of `_adjust_cpu`, unless it returns before.
  abbrev pub new_stress : Tuning fl → Setup F → F → F → Option F
  new_stress tuning s actual stress_mc =
      let tolerance = larger tuning.cpu_tolerance (mul tuning.cpu_fraction s.cpu_millicores) in
      let error = minus s.cpu_millicores actual in
      let stress = larger (of_int (pos 0)) (add stress_mc (mul tuning.cpu_gain error)) in
      if is_at_most s.cpu_millicores (of_int (pos 0))
      then none
      else (if is_at_most (absolute error) tolerance
          then none
          else (if is_at_most stress (of_int (pos 0)) && is_at_most stress_mc (of_int (pos 0))
              then none
              else some stress))

  module _ (env : Environment fl) where
    abbrev pub restart : Option F → Worker F → Worker F
    unfolding start_cpu
    restart none w = w
    restart (some mc) w =
        with_cpu fl env
          (start_cpu fl env.ceil_div env.round_div env.cores env.slice_ms mc (cpu_of fl env w)).0 w

    -- `_adjust_cpu`
    abbrev pub adjust_cpu : Tuning fl → F → Worker F → Option (Setup F) → Worker F
    unfolding restart
    adjust_cpu tuning actual w none = w
    adjust_cpu tuning actual w (some s) = restart (new_stress tuning s actual w.stress_mc) w

    unfoldable pub adjust : Tuning fl → Measure F → Worker F → Worker F × Result (Unit {0})
    unfolding adjust_ram adjust_cpu
    adjust tuning (ram_reading actual refuses) w = adjust_ram tuning actual refuses w w.setup
    adjust tuning (cpu_reading actual) w = (adjust_cpu tuning actual w w.setup, ok tt)

    -- The steps of the sampler: an exception of one is logged, and the loop goes on from what the
    -- step has left.
    unfoldable pub adjust_all : Tuning fl → List (Measure F) → Worker F → Worker F
    unfolding adjust
    adjust_all tuning [] w = w
    adjust_all tuning (r ∷ rs) w = adjust_all tuning rs (adjust tuning r w).0
