-- ===== src/Runner.antt =====
-- controller/runner.py: the thread that moves x through the phases of a scenario. The clock and
-- the outcome of each `patch_system_x` are arguments, tick by tick; the flag that keeps the
-- "scenario complete" line from being logged twice is left out.
pub mod Timeline
pub mod Tracking
pub mod Registry
mod Tests
use cloud_native_emulator.Prelude.{
  String, Bool, true, false, ◌&&◌, ◌||◌, Option, none, some, List, [], ◌∷◌, foldl, if◌then◌else◌,
  text_dec, ite,
}
use cloud_native_emulator.Prelude.Float.{Float}
use cloud_native_emulator.Template.{InputX}

-- An entry of `scenario_x_timeline`. The check of runtime_scenarios gives each an end.
pub record Phase (F : Type 0) : Type 0 where
  pub phase_id : Option String
  pub start_min : F
  pub end_min : F
  pub x : InputX F

-- `_last_phase_id`, and the calls of `patch_system_x` made so far, the newest first, each with
-- whether it came back without an exception.
pub record Run (F : Type 0) : Type 0 where
  pub last_phase_id : Option String
  pub calls : List (InputX F × Bool)

-- `phase_id == self._last_phase_id`
abbrev pub is_last : Option String → String → Bool
is_last none key = false
is_last (some k) key = ite (text_dec k key) true false

-- `str` of a float names a phase that has no id.
module _ (fl : Float) (str : fl.F → String) where
  open fl use {F, less, equal}

  -- a <= b
  abbrev pub at_most : F → F → Bool
  at_most a b = less a b || equal a b

  -- `ph["start_min"] <= elapsed_min < ph["end_min"]`
  abbrev pub within : F → Phase F → Bool
  within e ph = at_most ph.start_min e && less e ph.end_min

  -- `_active_phase`
  unfoldable pub active_phase : F → List (Phase F) → Option (Phase F)
  active_phase e [] = none
  active_phase e (ph ∷ phs) = if within e ph then some ph else active_phase e phs

  -- `ph.get("phase_id") or str(ph["start_min"])`
  unfoldable pub phase_key : Phase F → String
  phase_key ph = elim ph.phase_id [
    | none ↦ str ph.start_min
    | some i ↦ ite (text_dec i "") (str ph.start_min) i
  ]

  -- The end of the loop's body, for an active phase. A call that fails leaves the last id as it
  -- was, so the next tick calls again.
  unfoldable pub enter : Run F → Bool → Phase F → Run F
  enter r works ph = if is_last r.last_phase_id (phase_key ph) then r else (record {
    last_phase_id = if works then some (phase_key ph) else r.last_phase_id;
    calls = (ph.x, works) ∷ r.calls;
  })

  -- One pass of the loop of `_run`, at the minutes elapsed.
  unfoldable pub tick : List (Phase F) → Run F → F × Bool → Run F
  unfolding active_phase enter
  tick phs r (e, works) = elim (active_phase e phs) [ none ↦ r | some ph ↦ enter r works ph ]

  abbrev pub fresh : Run F
  fresh = record { last_phase_id = none; calls = [] }

  -- `_run`, until the stop event is set.
  unfoldable pub run : List (Phase F) → List (F × Bool) → Run F
  unfolding tick
  run phs ticks = foldl (tick phs) fresh ticks
